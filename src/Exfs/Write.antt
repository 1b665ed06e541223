-- ===== src/Exfs/Write.antt =====
-- source/core/exfs/exfs.c: `exfs_write`. What the static and local arrays of a call held before is
-- `junk`, a parameter of `pool_reserve`.
use xasmos.Base.{
  ℕ, zero, suc, ◌+◌, ◌-◌, ◌/◌, Bool, true, false, not, Option, none, some, ltb, ◌==◌, if◌then◌else◌,
  add32, add64, update,
}
use xasmos.Block.Device.{Buffer}
use xasmos.Exfs.Format.{Page, block_size}
use xasmos.Exfs.Volume.{
  ExfsStatus, exfs_ok, is_success, enoent, enospc, eio, enofs, ebroken, enomem, eisdir, ExfsExtent,
  Nodes, Volume, max_ext, defer_max, type_file, set_file, blk_put, take_extent, release_fresh,
}
use xasmos.Exfs.Pool.{Slice, pool_reserve, pool_release}
use xasmos.Exfs.Inodes.{defer_file}
use xasmos.Exfs.Names.{NodeName, find}

abbrev pub set_nodes {ℓ} : {D : Type ℓ} → Nodes → Volume D → Volume D
set_nodes s v = record v { nodes = s }

-- V.fresh[nf] = e
abbrev pub add_fresh {ℓ} : {D : Type ℓ} → ℕ → ExfsExtent → Volume D → Volume D
add_fresh nf e v = record v { nodes = record v.nodes { fresh = update v.nodes.fresh nf e } }

-- The loop that takes fresh blocks, with `left` the free cells of `V.fresh`: the status, `nf`, and the
-- volume. The local `e` is overwritten before it is read.
unfoldable pub take_fresh {ℓ} : {D : Type ℓ} → ℕ → ℕ → ℕ → ℕ → Volume D → ExfsStatus × ℕ × Volume D
take_fresh zero nf taken need v = if ltb taken need then (enomem, nf, v) else (exfs_ok, nf, v)
take_fresh (suc left) nf taken need v =
    let (l, e, v') = take_extent (need - taken) (record { start = 0; len = 0 }) v in
    let rest = take_fresh left (nf + 1) (add64 taken l) need (add_fresh nf e v') in
    if not (ltb taken need) then (exfs_ok, nf, v) else if l == 0 then (enospc, nf, v') else rest

abbrev pub min_of : ℕ → ℕ → ℕ
min_of a b = if ltb a b then a else b

-- The page of `n` bytes from `buf`, filled up with zeros.
unfoldable pub fill_page : ℕ → ℕ → Buffer → Page → Page
fill_page n pos buf p j = if ltb j block_size then (if ltb j n then buf (pos + j) else 0) else p j

-- The inner loop over one fresh run: `src - buf` and `left` come in and go out.
unfoldable pub write_run {ℓ} :
    {D : Type ℓ} → ℕ → ℕ → ℕ → Buffer → ℕ → ℕ → Volume D → Bool × ℕ × ℕ × Volume D
write_run zero k start buf pos left v = (true, pos, left, v)
write_run (suc m) k start buf pos left v =
    let n = min_of left block_size in
    let page = fill_page n pos buf v.page in
    let (wrote, v') = blk_put (add64 start k) page (record v { page = page }) in
    let rest = write_run m (k + 1) start buf (pos + n) (left - n) v' in
    if wrote then rest else (false, pos, left, v')

-- The outer loop over the fresh runs.
unfoldable pub write_runs {ℓ} : {D : Type ℓ} → ℕ → ℕ → Buffer → ℕ → ℕ → Volume D → Bool × Volume D
write_runs zero i buf pos left v = (true, v)
write_runs (suc n) i buf pos left v =
    let e = v.nodes.fresh i in
    let (wrote, pos', left', v') = write_run e.len 0 e.start buf pos left v in
    let rest = write_runs n (i + 1) buf pos' left' v' in if wrote then rest else (false, v')

-- for (i = 0; i < nf; i++) V.pool[roff + i] = from[i]
abbrev pub move_extents : ℕ → ℕ → (ℕ → ExfsExtent) → Nodes → Nodes
move_extents roff nf from s = record s {
  pool =
      λ j. if ltb j roff then s.pool j else if ltb j (roff + nf) then from (j - roff) else s.pool j;
}

-- The change in memory. The status of `defer_file` is ignored.
unfoldable pub replace_content : ℕ → Slice → ℕ → ℕ → Nodes → Nodes
replace_content i slice nf len s =
    let moved = move_extents slice.off nf s.fresh (defer_file i s).1 in
    record (set_file i
      (record (moved.files i) {
        ext_off = slice.off;
        ext_cap = slice.cap;
        n = nf;
        size = len;
        dirty = true;
      })
      moved) { dirty = true }

abbrev pub undo_slice {ℓ} : {D : Type ℓ} → Slice → ℕ → Volume D → Volume D
undo_slice slice nf v = release_fresh nf (set_nodes (pool_release slice.off slice.cap v.nodes) v)

unfoldable pub write_slice {ℓ} :
    {D : Type ℓ} → ℕ → ℕ → Buffer → ℕ → Option Slice → Volume D → ExfsStatus × Volume D
write_slice i nf buf len none v = (enomem, release_fresh nf v)
write_slice i nf buf len (some slice) v =
    let (wrote, v') = write_runs nf 0 buf 0 len v in
    if not wrote
    then (eio, undo_slice slice nf v')
    else (exfs_ok, set_nodes (replace_content i slice nf len v'.nodes) v')

-- The part after the fresh blocks are taken.
unfoldable pub write_taken {ℓ} :
    {D : Type ℓ} → (ℕ → ℕ) → ℕ → ℕ → Buffer → ℕ → Volume D → ExfsStatus × Volume D
write_taken junk i nf buf len v =
    let f = v.nodes.files i in
    let (slice, s) = pool_reserve junk nf v.nodes in
    let rest = write_slice i nf buf len slice (set_nodes s v) in
    if ltb defer_max (add32 (add32 v.nodes.ndefer f.n) f.nchain)
    then (enomem, release_fresh nf v)
    else rest

abbrev pub blocks_needed : ℕ → ℕ
blocks_needed len = add64 len (block_size - 1) / block_size

unfoldable pub write_file {ℓ} :
    {D : Type ℓ} → (ℕ → ℕ) → ℕ → Buffer → ℕ → Volume D → ExfsStatus × Volume D
write_file junk i buf len v =
    let (rc, nf, v') = take_fresh max_ext 0 0 (blocks_needed len) v in
    if is_success rc then write_taken junk i nf buf len v' else (rc, release_fresh nf v')

unfoldable pub write_found {ℓ} :
    {D : Type ℓ} → (ℕ → ℕ) → Option ℕ → Buffer → ℕ → Volume D → ExfsStatus × Volume D
write_found junk none buf len v = (enoent, v)
write_found junk (some i) buf len v =
    if not ((v.nodes.files i).type == type_file) then (eisdir, v) else write_file junk i buf len v

unfoldable pub exfs_write {ℓ} :
    {D : Type ℓ} → (ℕ → ℕ) → NodeName → Buffer → ℕ → Volume D → ExfsStatus × Volume D
exfs_write junk name buf len v =
    if not v.mounted
    then (enofs, v)
    else if v.broken
    then (ebroken, v)
    else write_found junk (find name v.nodes.files) buf len v
