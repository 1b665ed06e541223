-- ===== src/Exfs/Runs/Stage.antt =====
-- source/core/exfs/exfs.c: the list that `exfs_write_at` builds stands for the old blocks before the
-- range, the fresh ones, and the old blocks behind it.
use mathlib.Core.List.{append-nil, append_assoc}
use xasmos.Base.{
  ℕ, zero, suc, ◌+◌, ◌-◌, ◌%◌, ◌^◌, ◌≤◌, ◌<◌, ◌≡◌, refl, sym, ap, ◌∙◌, Bool, true, false, not, ◌&&◌,
  List, [], ◌++◌, ltb, leb, ◌==◌, if◌then◌else◌, arith, update, add64, if_both,
}
use xasmos.Exfs.Volume.{ExfsExtent, max_ext}
use xasmos.Exfs.Runs.{
  Staged, append_run, stage_add, cut_from, cut_to, cut_start, cut_len, walk_stage, stage_fresh,
  stage_list, blocks_from,
}
use xasmos.Exfs.Runs.Blocks.{
  length, run, spread, between, run-cong, run-add, between-append, between-past, between-run,
  spread-add_one, spread-cong, length-spread, length-run,
}

-- The blocks of the list being built.
abbrev pub blocks_of : Staged → List ℕ
blocks_of t = spread t.nstage 0 t.stage

-- The lengths are 32-bit words.
unfoldable pub IsSmall : (ℕ → ExfsExtent) → Type 0
IsSmall exts = (i : ℕ) → (exts i).len < 2 ^ 32

-- If the step succeeds, it has appended the blocks.
unfoldable pub Adds : List ℕ → Staged → Bool × Staged → Type 0
Adds xs t r = r.0 ≡ true → IsSmall r.1.stage × (blocks_of r.1 ≡ blocks_of t ++ xs)

spread-update :
    (m : ℕ) (stage : ℕ → ExfsExtent) (e : ExfsExtent)
    → spread (m + 1) 0 (update stage m e) ≡ spread m 0 stage ++ run e.start e.len
spread-update m stage e =
    let at : 0 + m ≡ m = omega arith in
    let self : (m == m) ≡ true = ground arith in
    let below : spread m 0 (update stage m e) ≡ spread m 0 stage =
      spread-cong m 0 (update stage m e) stage
        (λ j p q. let n : (j == m) ≡ false = ground arith in rw n refl) in
    spread-add_one m 0 (update stage m e) ∙ rw (at, self, below) refl

IsSmall-update :
    (m : ℕ) (stage : ℕ → ExfsExtent) (e : ExfsExtent)
    → IsSmall stage
    → e.len < 2 ^ 32
    → IsSmall (update stage m e)
unfolding IsSmall
IsSmall-update m stage e h p i = ground (arith, h i)

append_run-Adds :
    (start len : ℕ) (t : Staged)
    → len < 2 ^ 32
    → IsSmall t.stage
    → Adds (run start len) t (append_run start len t)
unfolding Adds
append_run-Adds start len t p h =
    if_both (λ (r : Bool × Staged). Adds (run start len) t r) (leb max_ext t.nstage) _ _
      (λ _ e. absurd (cc))
      (λ _ e.
        let word : len % 2 ^ 32 ≡ len = omega arith in
        (
          IsSmall-update t.nstage t.stage _ h (omega arith),
          spread-update t.nstage t.stage _ ∙ rw word refl,
        ))

longer_run :
    (s a b start : ℕ) → (add64 s a == start) ≡ true → run s (a + b) ≡ run s a ++ run start b
longer_run s a b start e =
    run-add a b s ∙ ap (◌++◌ (run s a)) (run-cong b (s + a) start (ground arith))

merge_run :
    (k m start len : ℕ) (stage : ℕ → ExfsExtent)
    → k ≡ m + 1
    → (add64 (stage m).start (stage m).len == start) ≡ true
    → ((stage m).len + len % 2 ^ 32) % 2 ^ 32 ≡ (stage m).len + len
    → spread k 0
        (update stage m (record (stage m) { len = ((stage m).len + len % 2 ^ 32) % 2 ^ 32 }))
      ≡ spread k 0 stage ++ run start len
merge_run k m start len stage n q joined =
    let last = stage m in
    let at : 0 + m ≡ m = omega arith in
    let old = spread-add_one m 0 stage in
    rw n (
      spread-update m stage _
      ∙ rw (joined, longer_run last.start last.len len start q, old, at, append_assoc) refl)

pub stage_add-Adds :
    (start len : ℕ) (t : Staged)
    → len < 2 ^ 32
    → IsSmall t.stage
    → Adds (run start len) t (stage_add start len t)
unfolding stage_add Adds
stage_add-Adds start len t p h =
    let m = t.nstage - 1 in
    let last = t.stage m in
    if_both (λ (r : Bool × Staged). Adds (run start len) t r)
      (ltb 0 t.nstage
        && (add64 last.start last.len == start)
        && leb (add64 last.len len) 0xFFFFFFFF)
      _ _
      (λ q _.
        let small : last.len < 2 ^ 32 = unfold IsSmall in h m in
        (
          IsSmall-update m t.stage _ h (omega arith),
          merge_run t.nstage m start len t.stage (ground arith) (ground arith) (ground arith),
        ))
      (λ _. append_run-Adds start len t p h)

-- Steps one after the other append one after the other.
Adds-then :
    (xs ys : List ℕ) (t u : Staged) (r : Bool × Staged)
    → blocks_of u ≡ blocks_of t ++ xs
    → Adds ys u r
    → Adds (xs ++ ys) t r
unfolding Adds
Adds-then xs ys t u r e h ok = let (small, f) = h ok in (small, rw (f, e, append_assoc) refl)

Adds-none : (t : Staged) → IsSmall t.stage → Adds [] t (true, t)
unfolding Adds
Adds-none t h ok = (h, sym (append-nil (blocks_of t)))

pub stage_fresh-Adds :
    (n i : ℕ) (fresh : ℕ → ExfsExtent) (t : Staged)
    → IsSmall fresh
    → IsSmall t.stage
    → Adds (spread n i fresh) t (stage_fresh n i fresh t)
unfolding stage_fresh spread Adds
stage_fresh-Adds zero i fresh t f h = Adds-none t h
stage_fresh-Adds (suc n) i fresh t f h =
    let e = fresh i in
    let r = stage_add e.start e.len t in
    let first = stage_add-Adds e.start e.len t (unfold IsSmall in f i) h in
    if_both (λ (r : Bool × Staged). Adds (spread (suc n) i fresh) t r) r.0 _ _
      (λ q.
        let (small, at) = first q in
        Adds-then (run e.start e.len) (spread n (i + 1) fresh) t r.1 _ at
          (stage_fresh-Adds n (i + 1) fresh r.1 f small))
      (λ q e. absurd (cc))

cut_blocks :
    (lo hi lpos : ℕ) (e : ExfsExtent)
    → lpos + e.len < 2 ^ 64
    → between lo hi lpos (run e.start e.len) ≡ run (cut_start lo lpos e) (cut_len lo hi lpos e)
unfolding cut_start cut_len
cut_blocks lo hi lpos e p =
    let word : add64 lpos e.len ≡ lpos + e.len = omega arith in
    between-run e.len lo hi lpos e.start
    ∙ rw word (run-cong (cut_to hi (lpos + e.len) - cut_from lo lpos) _ _ (ground arith))

cut_len-le :
    (lo hi lpos : ℕ) (e : ExfsExtent) → lpos + e.len < 2 ^ 64 → cut_len lo hi lpos e ≤ e.len
unfolding cut_len
cut_len-le lo hi lpos e p = ground arith

-- The range of the list splits at the end of its first extent.
between-spread :
    (n i lpos lo hi : ℕ) (exts : ℕ → ExfsExtent)
    → lpos + (exts i).len < 2 ^ 64
    → between lo hi lpos (spread (suc n) i exts)
      ≡ run (cut_start lo lpos (exts i)) (cut_len lo hi lpos (exts i))
        ++ between lo hi (add64 lpos (exts i).len) (spread n (i + 1) exts)
unfolding spread
between-spread n i lpos lo hi exts p =
    let e = exts i in
    let word : add64 lpos e.len ≡ lpos + e.len = omega arith in
    between-append lo hi lpos (run e.start e.len) (spread n (i + 1) exts)
    ∙ rw (length-run e.start e.len, cut_blocks lo hi lpos e p, word) refl

run-zero : (b : ℕ) → run b 0 ≡ []
unfolding run
run-zero b = refl

-- `walk_old` in mode 0 appends the blocks of the range, if the file has fewer than 2^64 blocks.
pub walk_stage-Adds :
    (n i lpos lo hi : ℕ) (exts : ℕ → ExfsExtent) (t : Staged)
    → IsSmall exts
    → IsSmall t.stage
    → lpos + length (spread n i exts) < 2 ^ 64
    → Adds (between lo hi lpos (spread n i exts)) t (walk_stage n i lpos lo hi exts t)
unfolding walk_stage Adds
walk_stage-Adds zero i lpos lo hi exts t f h p = unfold spread between in Adds-none t h
walk_stage-Adds (suc n) i lpos lo hi exts t f h p =
    let e = exts i in
    let size = length-spread n i exts in
    let short : lpos + e.len < 2 ^ 64 = omega arith in
    let next : add64 lpos e.len + length (spread n (i + 1) exts) < 2 ^ 64 = omega arith in
    let start = cut_start lo lpos e in
    let len = cut_len lo hi lpos e in
    let r = stage_add start len t in
    let later = between lo hi (add64 lpos e.len) (spread n (i + 1) exts) in
    let small : e.len < 2 ^ 32 = unfold IsSmall in f i in
    let first = stage_add-Adds start len t (omega (arith, cut_len-le lo hi lpos e short)) h in
    let P = λ (r : Bool × Staged). Adds (between lo hi lpos (spread (suc n) i exts)) t r in
    if_both P (not (ltb lpos hi)) _ _
      (λ q.
        let past = between-past lo hi lpos (spread (suc n) i exts) (ground arith) in
        rw past (Adds-none t h))
      λ _. rw (between-spread n i lpos lo hi exts short) (
        if_both (λ (r : Bool × Staged). Adds (run start len ++ later) t r) (len == 0) _ _
          (λ q.
            let none : len ≡ 0 = ground arith in
            rw (none, run-zero start)
              (walk_stage-Adds n (i + 1) (add64 lpos e.len) lo hi exts t f h next))
          (λ _.
            if_both (λ (r : Bool × Staged). Adds (run start len ++ later) t r) r.0 _ _
              (λ q.
                let (small, at) = first q in
                Adds-then (run start len) later t r.1 _ at
                  (walk_stage-Adds n (i + 1) (add64 lpos e.len) lo hi exts r.1 f small next))
              (λ q e. absurd (cc))))

blocks_from-length :
    (n i sum : ℕ) (exts : ℕ → ExfsExtent)
    → sum + length (spread n i exts) < 2 ^ 64
    → blocks_from n i sum exts ≡ sum + length (spread n i exts)
unfolding blocks_from
blocks_from-length zero i sum exts p = unfold spread in omega arith
blocks_from-length (suc n) i sum exts p =
    let size = length-spread n i exts in
    let word : add64 sum (exts i).len ≡ sum + (exts i).len = omega arith in
    rw word
      (omega (arith, blocks_from-length n (i + 1) (sum + (exts i).len) exts (omega arith), size))

-- The three steps, each of which may fail.
three_steps :
    (n w0 lo hi nf : ℕ) (exts fresh : ℕ → ExfsExtent) (t : Staged)
    → IsSmall exts
    → IsSmall fresh
    → IsSmall t.stage
    → length (spread n 0 exts) < 2 ^ 64
    → let kept = walk_stage n 0 0 0 w0 exts t in
      let added = stage_fresh nf 0 fresh kept.1 in
      let last = walk_stage n 0 0 lo hi exts added.1 in
      Adds
        (between 0 w0 0 (spread n 0 exts)
          ++ (spread nf 0 fresh ++ between lo hi 0 (spread n 0 exts)))
        t
        (if not kept.0 then (false, kept.1) else if not added.0 then (false, added.1) else last)
unfolding Adds
three_steps n w0 lo hi nf exts fresh t f g h p =
    let old = spread n 0 exts in
    let a = between 0 w0 0 old in
    let b = spread nf 0 fresh in
    let c = between lo hi 0 old in
    let kept = walk_stage n 0 0 0 w0 exts t in
    let added = stage_fresh nf 0 fresh kept.1 in
    let last = walk_stage n 0 0 lo hi exts added.1 in
    let size : 0 + length old < 2 ^ 64 = omega arith in
    if_both (λ (r : Bool × Staged). Adds (a ++ (b ++ c)) t r) (not kept.0) _ _ (λ _ e. absurd (cc))
      λ e.
        let (small, at) = walk_stage-Adds n 0 0 0 w0 exts t f h size (ground arith) in
        Adds-then a (b ++ c) t kept.1 _ at (
          if_both (λ (r : Bool × Staged). Adds (b ++ c) kept.1 r) (not added.0) _ _
            (λ _ e. absurd (cc))
            λ e.
              let (small', at') = stage_fresh-Adds nf 0 fresh kept.1 g small (ground arith) in
              Adds-then b c kept.1 added.1 last at'
                (walk_stage-Adds n 0 0 lo hi exts added.1 f small' size))

-- For a file of `n` extents with fewer than 2^64 blocks in total, and extent lengths of 32 bits: if
-- the new list of `exfs_write_at` is built, it stands for the old blocks before logical block `w0`,
-- then the fresh blocks, then the old blocks behind logical block `l1`, in order.
pub stage_list-Adds :
    (n w0 l1 nf : ℕ) (exts fresh stage : ℕ → ExfsExtent)
    → IsSmall exts
    → IsSmall fresh
    → IsSmall stage
    → length (spread n 0 exts) < 2 ^ 64
    → l1 + 1 < 2 ^ 64
    → let oldb = blocks_from n 0 0 exts in
      let r = stage_list n exts oldb w0 l1 nf fresh stage in
      let old = spread n 0 exts in
      r.0 ≡ true
      → blocks_of r.1
        ≡ between 0 w0 0 old ++ (spread nf 0 fresh ++ between (l1 + 1) (length old) 0 old)
unfolding stage_list Adds
stage_list-Adds n w0 l1 nf exts fresh stage f g h p q built =
    let sum = blocks_from-length n 0 0 exts (omega arith) in
    let oldb : blocks_from n 0 0 exts ≡ length (spread n 0 exts) = omega (arith, sum) in
    let next : add64 l1 1 ≡ l1 + 1 = omega arith in
    let t : Staged = record { stage = stage; nstage = 0 } in
    let none : blocks_of t ≡ [] = unfold spread in refl in
    let found =
      three_steps n w0 (add64 l1 1) (blocks_from n 0 0 exts) nf exts fresh t f g h p built in
    found.1 ∙ rw (none, next, oldb) refl
