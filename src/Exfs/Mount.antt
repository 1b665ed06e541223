-- ===== src/Exfs/Mount.antt =====
-- source/core/exfs/exfs.c: formatting and mounting a volume.
use xasmos.Base.{
  ℕ, zero, suc, ◌+◌, ◌-◌, ◌*◌, Bool, true, false, not, ◌&&◌, ◌||◌, Option, none, some, [], ◌∷◌, ltb,
  leb, ◌==◌, if◌then◌else◌, add64,
}
use xasmos.Block.Device.{Buffer, BlkDev}
use xasmos.Exfs.Format.{block_size, data_start, itab_blocks}
use xasmos.Exfs.Superblock.{
  SbFields, Decoded, read, bad, bad_checksum, bad_field, sb_decode, inodes,
}
use xasmos.Exfs.GroupMap.{group_max, gmap_format, gmap_import}
use xasmos.Exfs.GroupOps.{gmap_init, is_done}
use xasmos.Exfs.Volume.{
  ExfsStatus, exfs_ok, is_success, eio, enofs, enomem, ExfsFile, ExfsExtent, Nodes, Volume,
  type_dir, fext, set_file, blk_got, geometry,
}
use xasmos.Exfs.Pool.{Slice, pool_reserve, clear_pool}
use xasmos.Exfs.Inodes.{Decoding, inode_bytes, inode_decode}
use xasmos.Exfs.Names.{NodeName, make_node}
use xasmos.Exfs.Write.{set_nodes, move_extents}
use xasmos.Exfs.Commit.{exfs_commit}

-- The device with its geometry and an empty group map; `none` is EXFS_ENOFS.
unfoldable pub attach {ℓ} : {D : Type ℓ} → Option (BlkDev D) → Volume D → Option (Volume D)
attach none v = none
attach (some d) v = elim (geometry d) [
  | none ↦ none
  | some (spb, total) ↦ elim (gmap_init (some d) total group_max v.gm.cache) [
    | none ↦ none
    | some gm ↦ some (record v { spb = spb; total = total; gm = gm })
  ]
]

abbrev pub no_slice : ExfsFile → ExfsFile
no_slice f = record f { ext_off = 0; ext_cap = 0 }

abbrev pub name_user : NodeName
name_user = b'|' ∷ b'u' ∷ b's' ∷ b'e' ∷ b'r' ∷ []

abbrev pub name_root : NodeName
name_root = b'|' ∷ b'r' ∷ b'o' ∷ b'o' ∷ b't' ∷ []

abbrev pub name_bin : NodeName
name_bin = b'|' ∷ b'b' ∷ b'i' ∷ b'n' ∷ []

abbrev pub name_boot : NodeName
name_boot = b'|' ∷ b'b' ∷ b'o' ∷ b'o' ∷ b't' ∷ []

abbrev pub add_dir : NodeName → Nodes → Nodes
add_dir name s = (make_node name type_dir s).1

abbrev pub first_dirs : Nodes → Nodes
first_dirs s = add_dir name_boot (add_dir name_bin (add_dir name_root (add_dir name_user s)))

unfoldable pub empty_nodes : Nodes → Nodes
empty_nodes s = record (clear_pool s) {
  files = λ i. if ltb i inodes then record (no_slice (s.files i)) { used = false } else s.files i;
  ndefer = 0;
  dirty = true;
}

unfoldable pub fresh_volume {ℓ} : {D : Type ℓ} → Volume D → Volume D
fresh_volume v = record v {
  nodes = first_dirs (empty_nodes v.nodes);
  gen = 0;
  itab_start = 0;
  hint = data_start;
  broken = false;
  mounted = true;
}

unfoldable pub format_attached {ℓ} :
    {D : Type ℓ} → Buffer → Option (Volume D) → Option (ExfsStatus × Volume D)
format_attached junk none = none
format_attached junk (some v) =
    let (rc, gm) = gmap_format junk v.gm in
    let v' = record v { gm = gm } in
    some (if not (is_done rc) then (eio, v') else exfs_commit (fresh_volume v'))

-- `none` is EXFS_ENOFS. The code sets `V.dev`, `V.spb` and `V.total` before it refuses a device, so
-- what is left of a volume that was mounted is not stated. `junk` is what the static bitmap of
-- `gmap_format` held.
unfoldable pub exfs_format {ℓ} :
    {D : Type ℓ} → Buffer → Option (BlkDev D) → Volume D → Option (ExfsStatus × Volume D)
exfs_format junk d v = format_attached junk (attach d v)

-- The newer of the superblock so far and the one in the page.
unfoldable pub newer : Option SbFields → Decoded → Option SbFields
newer none (read f) = some f
newer (some best) (read f) = some (if ltb best.gen f.gen then f else best)
newer best bad = best
newer best bad_checksum = best
newer best bad_field = best

-- The loop over the superblock copies: rounds left, and block; with the page.
unfoldable pub newest_from {ℓ} :
    {D : Type ℓ} → ℕ → ℕ → Option SbFields → Volume D → Option SbFields × Volume D
newest_from zero s best v = (best, v)
newest_from (suc n) s best v =
    let (got, page) = blk_got s v.page v in
    let next = if got then newer best (sb_decode page) else best in
    newest_from n (s + 1) next (record v { page = page })

-- The loop that reads the inode table; false is EXFS_EIO.
unfoldable pub read_table {ℓ} : {D : Type ℓ} → ℕ → ℕ → ℕ → Volume D → Bool × Volume D
read_table zero b area v = (true, v)
read_table (suc n) b area v =
    let at = b * block_size in
    let (got, page) = blk_got (add64 area b) (λ j. v.itab (at + j)) v in
    let itab = λ (j : ℕ). if leb at j && ltb j (at + block_size) then page (j - at) else v.itab j in
    let v' = record v { itab = itab } in
    let rest = read_table n (b + 1) area v' in if got then rest else (false, v')

-- The checks on the chain and on the extents of a file.
unfoldable pub chain_inside : ℕ → ℕ → ℕ → (ℕ → ℕ) → Bool
chain_inside zero k total chain = true
chain_inside (suc n) k total chain =
    not (ltb (chain k) data_start || leb total (chain k)) && chain_inside n (k + 1) total chain

abbrev pub extent_inside : ℕ → ExfsExtent → Bool
extent_inside total e =
    not (e.len == 0) && not (ltb e.start data_start) && not (ltb total (add64 e.start e.len))

unfoldable pub extents_inside : ℕ → ℕ → ℕ → (ℕ → ExfsExtent) → Bool
extents_inside zero k total exts = true
extents_inside (suc n) k total exts =
    extent_inside total (exts k) && extents_inside n (k + 1) total exts

-- The decoded file is moved into the pool and checked.
unfoldable pub adopt_at {ℓ} : {D : Type ℓ} → ℕ → Option Slice → Volume D → ExfsStatus × Volume D
adopt_at i none v = (enomem, v)
adopt_at i (some slice) v =
    let f = record (v.nodes.files i) { ext_off = slice.off; ext_cap = slice.cap } in
    let s = set_file i f (move_extents slice.off f.n v.nodes.stage v.nodes) in
    let v' = set_nodes s v in
    if chain_inside f.nchain 0 v.total f.chain && extents_inside f.n 0 v.total (fext s f)
    then (exfs_ok, v')
    else (enofs, v')

-- The body of the loop over the records.
unfoldable pub mount_record {ℓ} : {D : Type ℓ} → (ℕ → ℕ) → ℕ → Volume D → ExfsStatus × Volume D
mount_record junk i v =
    let held : Decoding = record { file = v.nodes.files i; stage = v.nodes.stage; page = v.page } in
    let (rc, d) = inode_decode (λ j. v.itab (i * inode_bytes + j)) v held in
    let s = set_file i d.file (record v.nodes { stage = d.stage }) in
    let v' = record v { page = d.page; nodes = s } in
    let (slice, s') = pool_reserve junk d.file.n s in
    let adopted = adopt_at i slice (set_nodes s' v') in
    if not (is_success rc) then (enofs, v') else if d.file.used then adopted else (exfs_ok, v')

unfoldable pub mount_records {ℓ} : {D : Type ℓ} → (ℕ → ℕ) → ℕ → ℕ → Volume D → ExfsStatus × Volume D
mount_records junk zero i v = (exfs_ok, v)
mount_records junk (suc n) i v =
    let (rc, v') = mount_record junk i v in
    let rest = mount_records junk n (i + 1) v' in if is_success rc then rest else (rc, v')

unfoldable pub cleared_slices : Nodes → Nodes
cleared_slices s = record (clear_pool s) {
  files = λ i. if ltb i inodes then no_slice (s.files i) else s.files i;
}

unfoldable pub mount_done {ℓ} : {D : Type ℓ} → SbFields → Volume D → Volume D
mount_done best v = record v {
  gen = best.gen;
  itab_start = best.itab;
  hint = data_start;
  broken = false;
  mounted = true;
  nodes = record v.nodes { ndefer = 0; dirty = false };
}

-- The part after the superblock is chosen.
unfoldable pub mount_super {ℓ} :
    {D : Type ℓ} → (ℕ → ℕ) → SbFields → Volume D → ExfsStatus × Volume D
mount_super junk best v =
    let (got, v1) = read_table itab_blocks 0 best.itab v in
    let v2 = record v1 {
      gm = gmap_import best.slot best.free v1.gm;
      nodes = cleared_slices v1.nodes;
    } in
    let (rc, v3) = mount_records junk inodes 0 v2 in
    if not (best.total == v.total) || not (best.ngroups == v.gm.ngroups)
    then (enofs, v)
    else if not got
    then (eio, v1)
    else if is_success rc
    then (exfs_ok, mount_done best v3)
    else (rc, v3)

unfoldable pub mount_attached {ℓ} :
    {D : Type ℓ} → (ℕ → ℕ) → Option SbFields × Volume D → ExfsStatus × Volume D
mount_attached junk (none, v) = (enofs, v)
mount_attached junk (some best, v) = mount_super junk best v

-- On a refused device the volume is unmounted, and its geometry is not stated.
unfoldable pub exfs_mount {ℓ} :
    {D : Type ℓ} → (ℕ → ℕ) → Option (BlkDev D) → Volume D → ExfsStatus × Volume D
exfs_mount junk d v0 =
    let v = record v0 { mounted = false } in
    elim (attach d v) [
      | none ↦ (enofs, v)
      | some v1 ↦ mount_attached junk (newest_from 2 0 none v1)
    ]
