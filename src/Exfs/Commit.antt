-- ===== src/Exfs/Commit.antt =====
-- source/core/exfs/exfs.c: the commit.
pub mod Keeps
pub mod Outcome
use xasmos.Base.{
  ℕ, zero, suc, ◌+◌, ◌-◌, ◌*◌, ◌/◌, ◌%◌, ◌^◌, Bool, true, false, not, ◌&&◌, ◌||◌, Option, none,
  some, ltb, leb, ◌==◌, if◌then◌else◌, update, for_up,
}
use xasmos.Block.Device.{Buffer}
use xasmos.Exfs.Format.{Page, put32, put64, block_size, itab_blocks}
use xasmos.Exfs.Superblock.{SbFields, sb_encode, sb_max_groups, inodes}
use xasmos.Exfs.GroupOps.{gmap_flush, gmap_export, gmap_commit, gmap_free_total, is_done}
use xasmos.Exfs.Volume.{
  ExfsStatus, exfs_ok, is_success, enospc, eio, enofs, ebroken, enomem, ExfsFile, ExfsExtent, Nodes,
  Volume, exfs_inl, ind_ext, max_chain, fext, set_file, itab_area, blk_put, take_extent,
}
use xasmos.Exfs.Inodes.{inode_bytes, inode_encode, put_extent, apply_deferred}
use xasmos.Exfs.Write.{set_nodes}

abbrev pub mark_broken {ℓ} : {D : Type ℓ} → Volume D → Volume D
mark_broken v = record v { broken = true }

abbrev pub chain_blocks : ℕ → ℕ
chain_blocks n = (n - exfs_inl + ind_ext - 1) / ind_ext

-- Step 0: the sum of the chain blocks wanted, or EXFS_ENOMEM.
unfoldable pub chains_needed : ℕ → ℕ → ℕ → (ℕ → ExfsFile) → Option ℕ
chains_needed zero i need files = some need
chains_needed (suc n) i need files =
    let f = files i in
    let skipped = chains_needed n (i + 1) need files in
    let rest = chains_needed n (i + 1) (need + chain_blocks f.n) files in
    if not f.used || not f.dirty || leb f.n exfs_inl
    then skipped
    else if ltb max_chain (chain_blocks f.n)
    then none
    else rest

abbrev pub set_chain {ℓ} : {D : Type ℓ} → ℕ → ℕ → ℕ → Volume D → Volume D
set_chain i k b v =
    let f = v.nodes.files i in
    set_nodes (set_file i (record f { chain = update f.chain k b }) v.nodes) v

-- The loop that takes the chain blocks of file `i`; false is EXFS_ENOSPC.
unfoldable pub take_chain {ℓ} : {D : Type ℓ} → ℕ → ℕ → ℕ → Volume D → Bool × Volume D
take_chain zero k i v = (true, v)
take_chain (suc n) k i v =
    let (l, e, v') = take_extent 1 (record { start = 0; len = 0 }) v in
    let rest = take_chain n (k + 1) i (set_chain i k e.start v') in
    if not (l == 1) then (false, v') else rest

-- The page of chain block `k` of `nind`.
unfoldable pub chain_page : ExfsFile → (ℕ → ExfsExtent) → ℕ → ℕ → Page → Page
chain_page f exts nind k page =
    let first = exfs_inl + k * ind_ext in
    let cnt = if ltb ind_ext (f.n - first) then ind_ext else f.n - first in
    let next = if ltb (k + 1) nind then f.chain (k + 1) else 0 in
    let zeroed = for_up block_size 0 (λ j p. update p j 0) page in
    for_up cnt 0 (put_extent 16 (λ j. exts (first + j))) (put32 8 cnt (put64 0 next zeroed))

-- The loop that writes them: rounds left, and `k`; false is EXFS_EIO.
unfoldable pub write_chain {ℓ} : {D : Type ℓ} → ℕ → ℕ → ℕ → ℕ → Volume D → Bool × Volume D
write_chain zero k nind i v = (true, v)
write_chain (suc n) k nind i v =
    let f = v.nodes.files i in
    let page = chain_page f (fext v.nodes f) nind k v.page in
    let (wrote, v') = blk_put (f.chain k) page (record v { page = page }) in
    let rest = write_chain n (k + 1) nind i v' in if wrote then rest else (false, v')

unfoldable pub commit_chain {ℓ} : {D : Type ℓ} → ℕ → Volume D → ExfsStatus × Volume D
commit_chain i v =
    let n = (v.nodes.files i).n in
    let nind = if ltb exfs_inl n then chain_blocks n else 0 in
    let (took, v1) = take_chain nind 0 i v in
    let counted =
      set_nodes (set_file i (record (v1.nodes.files i) { nchain = nind }) v1.nodes) v1 in
    let (wrote, v2) = write_chain nind 0 nind i counted in
    if not took
    then (enospc, mark_broken v1)
    else if not wrote
    then (eio, mark_broken v2)
    else (exfs_ok, v2)

-- Step 1, over the files from `i` on.
unfoldable pub commit_chains {ℓ} : {D : Type ℓ} → ℕ → ℕ → Volume D → ExfsStatus × Volume D
commit_chains zero i v = (exfs_ok, v)
commit_chains (suc n) i v =
    let f = v.nodes.files i in
    let skipped = commit_chains n (i + 1) v in
    let (rc, v') = commit_chain i v in
    let rest = commit_chains n (i + 1) v' in
    if not f.used || not f.dirty then skipped else if is_success rc then rest else (rc, v')

-- Record `i` of the table, encoded in place.
unfoldable pub encode_record : Nodes → ℕ → Buffer → Buffer
encode_record s i itab j =
    let at = i * inode_bytes in
    let f = s.files i in
    if leb at j && ltb j (at + inode_bytes)
    then inode_encode f (fext s f) (λ k. itab (at + k)) (j - at)
    else itab j

unfoldable pub encode_table : Nodes → Buffer → Buffer
encode_table s itab = for_up inodes 0 (encode_record s) itab

-- The loop that writes the table to the area: rounds left, and block; false is EXFS_EIO.
unfoldable pub write_table {ℓ} : {D : Type ℓ} → ℕ → ℕ → ℕ → Volume D → Bool × Volume D
write_table zero b area v = (true, v)
write_table (suc n) b area v =
    let (wrote, v') = blk_put (area + b) (λ j. v.itab (b * block_size + j)) v in
    let rest = write_table n (b + 1) area v' in if wrote then rest else (false, v')

-- The fields of the new superblock.
unfoldable pub sb_fields {ℓ} : {D : Type ℓ} → ℕ → Volume D → SbFields
sb_fields gen v =
    let (slot, free) = gmap_export v.gm (λ _. 0) (λ _. 0) in
    record {
      gen = gen;
      itab = itab_area gen;
      nitab = itab_blocks;
      ninodes = inodes;
      total = v.total;
      ngroups = v.gm.ngroups;
      slot = slot;
      free = free;
    }

-- Step 6.
unfoldable pub make_durable {ℓ} : {D : Type ℓ} → ℕ → Volume D → Volume D
make_durable gen v = record v {
  gm = gmap_commit v.gm;
  gen = gen;
  itab_start = itab_area gen;
  nodes = record v.nodes {
    files =
        λ i. if ltb i inodes then record (v.nodes.files i) { dirty = false } else v.nodes.files i;
    dirty = false;
  };
}

-- The superblock page is written, if it could be encoded.
unfoldable pub write_page {ℓ} : {D : Type ℓ} → Option Page → ℕ → Volume D → ExfsStatus × Volume D
write_page none gen v = (eio, mark_broken v)
write_page (some page) gen v =
    let (wrote, v') = blk_put (gen % 2) page (record v { page = page }) in
    if wrote then (exfs_ok, make_durable gen v') else (eio, mark_broken v')

-- Step 5, the commit point.
unfoldable pub write_super {ℓ} : {D : Type ℓ} → ℕ → Volume D → ExfsStatus × Volume D
write_super gen v = write_page (sb_encode v.page (sb_fields gen v)) gen v

-- Steps 2 to 6.
unfoldable pub commit_map {ℓ} : {D : Type ℓ} → Volume D → ExfsStatus × Volume D
commit_map v =
    let (applied, v1) = apply_deferred v in
    let (rc, gm) = gmap_flush v1.gm in
    let v2 = record v1 { gm = gm } in
    let gen = (v2.gen + 1) % 2 ^ 64 in
    let (wrote, v3) =
      write_table itab_blocks 0 (itab_area gen)
        (record v2 { itab = encode_table v2.nodes v2.itab }) in
    if not applied
    then (eio, mark_broken v1)
    else if not (is_done rc)
    then (eio, mark_broken v2)
    else if not wrote
    then (eio, mark_broken v3)
    else write_super gen v3

-- The answer of step 0, for the blocks that are free.
unfoldable pub room_for : Option ℕ → ℕ → ExfsStatus
room_for none free = enomem
room_for (some need) free = if ltb free need then enospc else exfs_ok

unfoldable pub commit_dirty {ℓ} : {D : Type ℓ} → Volume D → ExfsStatus × Volume D
commit_dirty v =
    let (rc, v1) = commit_chains inodes 0 v in
    let rest = commit_map v1 in
    let room = room_for (chains_needed inodes 0 0 v.nodes.files) (gmap_free_total v.gm) in
    if not (is_success room) then (room, v) else if is_success rc then rest else (rc, v1)

unfoldable pub exfs_commit {ℓ} : {D : Type ℓ} → Volume D → ExfsStatus × Volume D
exfs_commit v =
    if not v.mounted
    then (enofs, v)
    else if v.broken
    then (ebroken, v)
    else if not v.nodes.dirty
    then (exfs_ok, v)
    else commit_dirty v

unfoldable pub exfs_unmount {ℓ} : {D : Type ℓ} → Volume D → ExfsStatus × Volume D
exfs_unmount v =
    let (rc, v') = exfs_commit v in
    if not v.mounted
    then (enofs, v)
    else if not (is_success rc)
    then (rc, v')
    else (exfs_ok, record v' { mounted = false })
