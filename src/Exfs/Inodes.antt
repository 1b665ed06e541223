-- ===== src/Exfs/Inodes.antt =====
-- source/core/exfs/exfs.c: the records of the inode table, and the list of blocks that the next
-- commit frees.
pub mod Record
pub mod RoundTrip
use xasmos.Base.{
  ℕ, zero, suc, ◌+◌, ◌-◌, ◌*◌, ◌%◌, ◌^◌, Bool, true, false, not, Option, none, some, ltb, leb, ◌==◌,
  if◌then◌else◌, add32, update, for_up,
}
use xasmos.Block.Device.{Buffer}
use xasmos.Exfs.Format.{Page, put8, put32, put64, get32, get64}
use xasmos.Exfs.GroupMap.{GMap, GmapStatus}
use xasmos.Exfs.GroupOps.{gmap_release, is_done}
use xasmos.Exfs.Volume.{
  ExfsStatus, exfs_ok, enofs, eio, enomem, ExfsFile, ExfsExtent, Nodes, Volume, name_max, exfs_inl,
  ind_ext, max_ext, max_chain, defer_max, fext, set_file, blk_got,
}
use xasmos.Exfs.Pool.{pool_release}

abbrev pub inode_bytes : ℕ
inode_bytes = 256

-- The body of the loop over the inline extents.
unfoldable pub put_extent : ℕ → (ℕ → ExfsExtent) → ℕ → Page → Page
put_extent at exts i r = put32 (at + i * 16 + 8) (exts i).len (put64 (at + i * 16) (exts i).start r)

abbrev pub first_chain : ExfsFile → ℕ
first_chain f = if f.nchain == 0 then 0 else f.chain 0

-- `exts` are the extents of the file, from its slice on.
unfoldable pub inode_encode : ExfsFile → (ℕ → ExfsExtent) → Page → Page
inode_encode f exts r =
    let cleared = for_up inode_bytes 0 (λ i p. put8 i 0 p) r in
    let header = put64 8 f.size (put32 4 f.type (put32 0 (if f.used then 1 else 0) cleared)) in
    let named = for_up (name_max + 1) 0 (λ i p. put8 (16 + i) (f.name i) p) header in
    let ninl = if ltb f.n exfs_inl then f.n else exfs_inl in
    for_up ninl 0 (put_extent 128 exts) (put32 120 ninl (put64 112 (first_chain f) named))

unfoldable pub get_extent : ℕ → ℕ → Page → ExfsExtent
get_extent at i r = record { start = get64 (at + i * 16) r; len = get32 (at + i * 16 + 8) r }

-- A loop that appends `count` extents to `V.stage`: its index, and the end of the list.
unfoldable pub stage_extents : ℕ → ℕ → ℕ → ℕ → Page → (ℕ → ExfsExtent) → (ℕ → ExfsExtent)
stage_extents zero at i n r stage = stage
stage_extents (suc count) at i n r stage =
    stage_extents count at (i + 1) (n + 1) r (update stage n (get_extent at i r))

-- The fields up to the name.
unfoldable pub decode_fields : Page → ExfsFile → ExfsFile
decode_fields r f = record f {
  used = not (get32 0 r == 0);
  type = get32 4 r;
  size = get64 8 r;
  name =
      λ i. if i == name_max then 0 else if ltb i (name_max + 1) then r (16 + i) % 256 else f.name i;
  dirty = false;
  nchain = 0;
  n = 0;
  ext_off = 0;
  ext_cap = 0;
}

-- What decoding leaves: the file, `V.stage`, and `V.page`.
pub record Decoding : Type 0 where
  pub file : ExfsFile
  pub stage : ℕ → ExfsExtent
  pub page : Page

-- One block of the chain, read into the page.
unfoldable pub take_chain_block : ℕ → Page → Decoding → Decoding
take_chain_block blk page d =
    let cnt = get32 8 page in
    record {
      file = record d.file {
        n = d.file.n + cnt;
        chain = update d.file.chain d.file.nchain blk;
        nchain = d.file.nchain + 1;
      };
      stage = stage_extents cnt 16 0 d.file.n page d.stage;
      page = page;
    }

-- The walk along the chain, with one round more than EXFS_MAX_CHAIN: in the last, a block that is not
-- zero is refused.
unfoldable pub walk_chain {ℓ} : {D : Type ℓ} → ℕ → ℕ → Volume D → Decoding → ExfsStatus × Decoding
walk_chain zero blk v d = if blk == 0 then (exfs_ok, d) else (enofs, d)
walk_chain (suc left) blk v d =
    let (read, page) = blk_got blk d.page v in
    let cnt = get32 8 page in
    let rest = walk_chain left (get64 0 page) v (take_chain_block blk page d) in
    if blk == 0
    then (exfs_ok, d)
    else if not read
    then (eio, record d { page = page })
    else if ltb ind_ext cnt
    then (enofs, record d { page = page })
    else if ltb max_ext (d.file.n + cnt)
    then (enofs, record d { page = page })
    else rest

unfoldable pub inode_decode {ℓ} : {D : Type ℓ} → Page → Volume D → Decoding → ExfsStatus × Decoding
inode_decode r v d =
    let f = decode_fields r d.file in
    let ninl = get32 120 r in
    let inline : Decoding = record d {
      file = record f { n = ninl };
      stage = stage_extents ninl 128 0 0 r d.stage;
    } in
    let walked = walk_chain max_chain (get64 112 r) v inline in
    if not f.used
    then (exfs_ok, record d { file = f })
    else if ltb exfs_inl ninl
    then (enofs, record d { file = f })
    else walked

unfoldable pub defer_push : ℕ → ℕ → Nodes → ExfsStatus × Nodes
defer_push start len s = if leb defer_max s.ndefer then (enomem, s) else (
  exfs_ok,
  record s {
    defer = update s.defer s.ndefer (record { start = start; len = len });
    ndefer = s.ndefer + 1;
  },
)

abbrev pub defer_extent : ExfsFile → ℕ → Nodes → Nodes
defer_extent f i s = (defer_push (fext s f i).start (fext s f i).len s).1

abbrev pub defer_chain : ExfsFile → ℕ → Nodes → Nodes
defer_chain f i s = (defer_push (f.chain i) 1 s).1

unfoldable pub defer_file : ℕ → Nodes → ExfsStatus × Nodes
defer_file i s =
    let f = s.files i in
    let need = add32 f.n f.nchain in
    let runs = for_up f.n 0 (defer_extent f) s in
    let chains = for_up f.nchain 0 (defer_chain f) runs in
    let freed = pool_release f.ext_off f.ext_cap chains in
    if ltb defer_max (add32 s.ndefer need)
    then (enomem, s)
    else (exfs_ok, set_file i (record f { ext_off = 0; ext_cap = 0; n = 0; nchain = 0 }) freed)

-- The loop of `apply_deferred`: rounds left, and index.
unfoldable pub apply_from {ℓ} : {D : Type ℓ} → ℕ → ℕ → (ℕ → ExfsExtent) → GMap D → Bool × GMap D
apply_from zero i defer m = (true, m)
apply_from (suc n) i defer m =
    let (rc, m') = gmap_release (defer i).start (defer i).len m in
    let rest = apply_from n (i + 1) defer m' in if is_done rc then rest else (false, m')

-- False is EXFS_EIO.
unfoldable pub apply_deferred {ℓ} : {D : Type ℓ} → Volume D → Bool × Volume D
apply_deferred v =
    let (applied, gm) = apply_from v.nodes.ndefer 0 v.nodes.defer v.gm in
    if applied
    then (true, record v { gm = gm; nodes = record v.nodes { ndefer = 0 } })
    else (false, record v { gm = gm })
