-- ===== src/Exfs/WriteAt.antt =====
-- source/core/exfs/exfs.c: `exfs_write_at`.
use xasmos.Base.{
  ℕ, zero, suc, ◌+◌, ◌-◌, ◌*◌, ◌/◌, ◌%◌, ◌^◌, Bool, true, false, not, ◌&&◌, Option, none, some, ltb,
  leb, ◌==◌, if◌then◌else◌, add32, add64, sub64, for_up,
}
use xasmos.Block.Device.{Buffer}
use xasmos.Exfs.Format.{Page, block_size}
use xasmos.Exfs.GroupOps.{gmap_free_total}
use xasmos.Exfs.Volume.{
  ExfsStatus, exfs_ok, is_success, enoent, enospc, eio, enofs, einval, ebroken, enomem, eisdir,
  ExfsFile, ExfsExtent, Nodes, Volume, max_ext, defer_max, type_file, fext, set_file, blk_put,
  blk_got, release_fresh,
}
use xasmos.Exfs.Pool.{Slice, pool_reserve, pool_release}
use xasmos.Exfs.Inodes.{defer_chain}
use xasmos.Exfs.Names.{NodeName, find}
use xasmos.Exfs.Runs.{Staged, walk_defer, old_phys, blocks_from, stage_list}
use xasmos.Exfs.Write.{set_nodes, take_fresh, min_of, move_extents, undo_slice}

-- The locals of the call: the file, its blocks, the range of bytes, and the blocks it touches.
pub record Span : Type 0 where
  pub file : ExfsFile
  pub exts : ℕ → ExfsExtent
  pub oldb : ℕ
  pub off : ℕ
  pub end : ℕ
  pub w0 : ℕ
  pub l1 : ℕ

unfoldable pub span_of : Nodes → ℕ → ℕ → ℕ → Span
span_of s i off len =
    let f = s.files i in
    let oldb = blocks_from f.n 0 0 (fext s f) in
    record {
      file = f;
      exts = fext s f;
      oldb = oldb;
      off = off;
      end = add64 off len;
      w0 = min_of (off / block_size) oldb;
      l1 = (off + len - 1) / block_size;
    }

-- V.page[j] = 0 from `from` on
unfoldable pub zero_page : ℕ → Page → Page
zero_page from p j = if ltb j from then p j else if ltb j block_size then 0 else p j

-- The page of logical block `l` before the caller's bytes; false is EXFS_EIO.
unfoldable pub base_page {ℓ} : {D : Type ℓ} → Span → ℕ → Volume D → Bool × Page
base_page k l v =
    let bs = l * block_size % 2 ^ 64 in
    let be = add64 bs block_size in
    let full = leb k.off bs && leb be k.end in
    let size = k.file.size in
    let old : Bool × Page = elim (old_phys k.file.n l k.exts) [
      | none ↦ (false, v.page)
      | some op ↦
          let (read, page) = blk_got op v.page v in
          (read, if read then zero_page (if ltb bs size then size - bs else 0) page else page)
    ] in
    if not full && ltb l k.oldb then old else (true, zero_page 0 v.page)

-- The caller's bytes of block `l`.
unfoldable pub merge_bytes : Span → ℕ → Buffer → Page → Page
merge_bytes k l buf p j =
    let bs = l * block_size % 2 ^ 64 in
    let from = if ltb bs k.off then k.off else bs in
    let to = min_of k.end (add64 bs block_size) in
    if leb from (bs + j) && ltb (bs + j) to then buf (bs + j - k.off) else p j

-- The loop over the blocks: rounds left, `l`, `fi` and `fk`.
unfoldable pub write_blocks {ℓ} :
    {D : Type ℓ} → ℕ → ℕ → ℕ → ℕ → Span → Buffer → Volume D → Bool × Volume D
write_blocks zero l fi fk k buf v = (true, v)
write_blocks (suc n) l fi fk k buf v =
    let (based, base) = base_page k l v in
    let page = merge_bytes k l buf base in
    let e = v.nodes.fresh fi in
    let (wrote, v') = blk_put (add64 e.start fk) page (record v { page = page }) in
    let next_run = write_blocks n (l + 1) (fi + 1) 0 k buf v' in
    let next_block = write_blocks n (l + 1) fi (fk + 1) k buf v' in
    if not based
    then (false, record v { page = base })
    else if not wrote
    then (false, v')
    else if fk + 1 == e.len
    then next_run
    else next_block

-- The change in memory. The statuses of `walk_old` and `defer_push` are ignored.
unfoldable pub splice_content : ℕ → Span → Slice → Nodes → Nodes
splice_content i k slice s =
    let f = s.files i in
    let hi = min_of (add64 k.l1 1) k.oldb in
    let runs = (walk_defer f.n 0 0 k.w0 hi (fext s f) s).1 in
    let chains = for_up f.nchain 0 (defer_chain f) runs in
    let freed = pool_release f.ext_off f.ext_cap chains in
    let moved = move_extents slice.off freed.nstage freed.stage freed in
    record (set_file i
      (record f {
        ext_off = slice.off;
        ext_cap = slice.cap;
        nchain = 0;
        n = s.nstage;
        size = if ltb f.size k.end then k.end else f.size;
        dirty = true;
      })
      moved) { dirty = true }

unfoldable pub splice_slice {ℓ} :
    {D : Type ℓ} → ℕ → ℕ → Span → Buffer → Option Slice → Volume D → ExfsStatus × Volume D
splice_slice i nf k buf none v = (enomem, release_fresh nf v)
splice_slice i nf k buf (some slice) v =
    let exts = fext v.nodes (v.nodes.files i) in
    let k' = record k { exts = exts } in
    let (wrote, v') = write_blocks (k.l1 - k.w0 + 1) k.w0 0 0 k' buf v in
    if not wrote
    then (eio, undo_slice slice nf v')
    else (exfs_ok, set_nodes (splice_content i k' slice v'.nodes) v')

abbrev pub set_stage : Staged → Nodes → Nodes
set_stage t s = record s { stage = t.stage; nstage = t.nstage }

-- The part after the fresh blocks are taken.
unfoldable pub splice_taken {ℓ} :
    {D : Type ℓ} → (ℕ → ℕ) → ℕ → ℕ → Span → Buffer → Volume D → ExfsStatus × Volume D
splice_taken junk i nf k buf v =
    let (staged, t) = stage_list k.file.n k.exts k.oldb k.w0 k.l1 nf v.nodes.fresh v.nodes.stage in
    let s = set_stage t v.nodes in
    let (slice, s') = pool_reserve junk t.nstage s in
    if not staged
    then (enomem, release_fresh nf (set_nodes s v))
    else splice_slice i nf k buf slice (set_nodes s' v)

unfoldable pub splice_file {ℓ} :
    {D : Type ℓ} → (ℕ → ℕ) → ℕ → Buffer → ℕ → ℕ → Volume D → ExfsStatus × Volume D
splice_file junk i buf off len v =
    let k = span_of v.nodes i off len in
    let nfresh = sub64 k.l1 k.w0 + 1 in
    let (rc, nf, v') = take_fresh max_ext 0 0 nfresh v in
    let taken = splice_taken junk i nf k buf v' in
    if len == 0
    then (exfs_ok, v)
    else if ltb (add64 off len) off
    then (einval, v)
    else if ltb (gmap_free_total v.gm) nfresh
    then (enospc, v)
    else if ltb defer_max (add32 (add32 (add32 v.nodes.ndefer k.file.n) k.file.nchain) 1)
    then (enomem, v)
    else if is_success rc
    then taken
    else (rc, release_fresh nf v')

unfoldable pub splice_found {ℓ} :
    {D : Type ℓ} → (ℕ → ℕ) → Option ℕ → ℕ → Buffer → ℕ → Volume D → ExfsStatus × Volume D
splice_found junk none off buf len v = (enoent, v)
splice_found junk (some i) off buf len v =
    if not ((v.nodes.files i).type == type_file)
    then (eisdir, v)
    else splice_file junk i buf off len v

unfoldable pub exfs_write_at {ℓ} :
    {D : Type ℓ} → (ℕ → ℕ) → NodeName → ℕ → Buffer → ℕ → Volume D → ExfsStatus × Volume D
exfs_write_at junk name off buf len v =
    if not v.mounted
    then (enofs, v)
    else if v.broken
    then (ebroken, v)
    else splice_found junk (find name v.nodes.files) off buf len v
