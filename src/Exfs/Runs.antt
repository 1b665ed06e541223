-- ===== src/Exfs/Runs.antt =====
-- source/core/exfs/exfs.c: the extent list of a file, and the new list that a write builds.
pub mod Blocks
pub mod Stage
use xasmos.Base.{
  ℕ, zero, suc, ◌+◌, ◌-◌, ◌%◌, ◌^◌, Bool, true, false, not, ◌&&◌, Option, none, some, ltb, leb,
  ◌==◌, if◌then◌else◌, add64, sub64, update,
}
use xasmos.Exfs.Volume.{
  ExfsStatus, exfs_ok, is_success, enomem, ExfsFile, ExfsExtent, Nodes, max_ext, fext,
}
use xasmos.Exfs.Inodes.{defer_push}

-- The list being built, `V.stage` and `V.nstage`.
pub record Staged : Type 0 where
  pub stage : ℕ → ExfsExtent
  pub nstage : ℕ

abbrev pub append_run : ℕ → ℕ → Staged → Bool × Staged
append_run start len t = if leb max_ext t.nstage then (false, t) else (
  true,
  record {
    stage = update t.stage t.nstage (record { start = start; len = len % 2 ^ 32 });
    nstage = t.nstage + 1;
  },
)

-- False is EXFS_ENOMEM.
unfoldable pub stage_add : ℕ → ℕ → Staged → Bool × Staged
stage_add start len t =
    let last = t.stage (t.nstage - 1) in
    let longer : ExfsExtent = record last { len = (last.len + len % 2 ^ 32) % 2 ^ 32 } in
    if ltb 0 t.nstage && (add64 last.start last.len == start) && leb (add64 last.len len) 0xFFFFFFFF
    then (true, record t { stage = update t.stage (t.nstage - 1) longer })
    else append_run start len t

-- The part of extent `e` at `lpos` that lies in [lo, hi): its first block and its length.
abbrev pub cut_from : ℕ → ℕ → ℕ
cut_from lo lpos = if ltb lo lpos then lpos else lo

abbrev pub cut_to : ℕ → ℕ → ℕ
cut_to hi end = if ltb end hi then end else hi

unfoldable pub cut_start : ℕ → ℕ → ExfsExtent → ℕ
cut_start lo lpos e = add64 e.start (sub64 (cut_from lo lpos) lpos)

unfoldable pub cut_len : ℕ → ℕ → ℕ → ExfsExtent → ℕ
cut_len lo hi lpos e = cut_to hi (add64 lpos e.len) - cut_from lo lpos

-- `walk_old` in mode 0: rounds left, index and `lpos`.
unfoldable pub walk_stage : ℕ → ℕ → ℕ → ℕ → ℕ → (ℕ → ExfsExtent) → Staged → Bool × Staged
walk_stage zero i lpos lo hi exts t = (true, t)
walk_stage (suc n) i lpos lo hi exts t =
    let e = exts i in
    let (added, t') = stage_add (cut_start lo lpos e) (cut_len lo hi lpos e) t in
    let skipped = walk_stage n (i + 1) (add64 lpos e.len) lo hi exts t in
    let rest = walk_stage n (i + 1) (add64 lpos e.len) lo hi exts t' in
    if not (ltb lpos hi)
    then (true, t)
    else if cut_len lo hi lpos e == 0
    then skipped
    else if added
    then rest
    else (false, t')

-- `walk_old` in mode 1.
unfoldable pub walk_defer : ℕ → ℕ → ℕ → ℕ → ℕ → (ℕ → ExfsExtent) → Nodes → ExfsStatus × Nodes
walk_defer zero i lpos lo hi exts s = (exfs_ok, s)
walk_defer (suc n) i lpos lo hi exts s =
    let e = exts i in
    let skipped = walk_defer n (i + 1) (add64 lpos e.len) lo hi exts s in
    let pushed = defer_push (cut_start lo lpos e) (cut_len lo hi lpos e % 2 ^ 32) s in
    let rest = walk_defer n (i + 1) (add64 lpos e.len) lo hi exts pushed.1 in
    if not (ltb lpos hi)
    then (exfs_ok, s)
    else if cut_len lo hi lpos e == 0
    then skipped
    else if is_success pushed.0
    then rest
    else (enomem, pushed.1)

-- The loop of `old_phys`; `none` is EXFS_ENOFS.
unfoldable pub phys_from : ℕ → ℕ → ℕ → ℕ → (ℕ → ExfsExtent) → Option ℕ
phys_from zero i lpos l exts = none
phys_from (suc n) i lpos l exts =
    let e = exts i in
    let rest = phys_from n (i + 1) (add64 lpos e.len) l exts in
    if ltb l (add64 lpos e.len) then some (add64 e.start (sub64 l lpos)) else rest

unfoldable pub old_phys : ℕ → ℕ → (ℕ → ExfsExtent) → Option ℕ
old_phys n l exts = phys_from n 0 0 l exts

-- The blocks that the extents hold.
unfoldable pub blocks_from : ℕ → ℕ → ℕ → (ℕ → ExfsExtent) → ℕ
blocks_from zero i sum exts = sum
blocks_from (suc n) i sum exts = blocks_from n (i + 1) (add64 sum (exts i).len) exts

-- The loop over the fresh runs in `exfs_write_at`.
unfoldable pub stage_fresh : ℕ → ℕ → (ℕ → ExfsExtent) → Staged → Bool × Staged
stage_fresh zero i fresh t = (true, t)
stage_fresh (suc n) i fresh t =
    let (added, t') = stage_add (fresh i).start (fresh i).len t in
    let rest = stage_fresh n (i + 1) fresh t' in if added then rest else (false, t')

-- The new list of `exfs_write_at`: old blocks before `w0`, the `nf` fresh runs, old blocks after `l1`.
unfoldable pub stage_list :
    ℕ → (ℕ → ExfsExtent) → ℕ → ℕ → ℕ → ℕ → (ℕ → ExfsExtent) → (ℕ → ExfsExtent) → Bool × Staged
stage_list n exts oldb w0 l1 nf fresh stage =
    let (kept, t) = walk_stage n 0 0 0 w0 exts (record { stage = stage; nstage = 0 }) in
    let (added, t') = stage_fresh nf 0 fresh t in
    let rest = walk_stage n 0 0 (add64 l1 1) oldb exts t' in
    if not kept then (false, t) else if not added then (false, t') else rest
