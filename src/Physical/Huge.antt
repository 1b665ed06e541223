-- ===== src/Physical/Huge.antt =====
-- The scan of `phys_alloc_huge` of physical.c.
use xasmos.Base.{
  ℕ, zero, suc, ◌+◌, ◌%◌, ◌≤◌, ◌<◌, ◌≡◌, ◌≢◌, true, none, some, arith, ltb, ◌==◌, if◌then◌else◌,
  Bool-cases, inl, inr,
}
use xasmos.Physical.State.{PhysBitmap, bit_test, frames_per_huge}
use xasmos.Physical.Alloc.{scan_huge, huge_last}
use xasmos.Physical.Scan.{IsFreeRun}

-- Between boundaries the run has gone on since the last one.
abbrev Current : PhysBitmap → ℕ → ℕ → ℕ → Type 0
Current p f run start =
    f % frames_per_huge ≢ 0
    → (run ≡ f % frames_per_huge) × (start + run ≡ f) × IsFreeRun p start run

abbrev run_of : ℕ → ℕ → ℕ
run_of f run = if f % frames_per_huge == 0 then 0 else run

abbrev start_of : ℕ → ℕ → ℕ
start_of f start = if f % frames_per_huge == 0 then f else start

record Step (p : PhysBitmap) (f run start : ℕ) : Type 0 where
  length : run ≡ f % frames_per_huge + 1
  end : start + run ≡ f + 1
  free : IsFreeRun p start run

Current-Step :
    (p : PhysBitmap) (f run start : ℕ)
    → bit_test p f ≡ true
    → Current p f run start
    → Step p f (run_of f run + 1) (start_of f start)
Current-Step p f run start free c = elim (Bool-cases (f % frames_per_huge == 0)) [
  | inl e ↦ record {
    length = ground arith;
    end = ground arith;
    free = λ g a b. let h : g ≡ f = ground arith in rw h free;
  }
  | inr e ↦
      let old = c (ground arith) in
      record {
        length = ground arith;
        end = ground arith;
        free = λ g a b. elim (Bool-cases (g == f)) [
          | inl h ↦ let h' : g ≡ f = ground arith in rw h' free
          | inr h ↦ old.2 g (ground arith) (ground arith)
        ];
      }
]

Step-Current :
    (p : PhysBitmap) (f run start : ℕ)
    → Step p f run start
    → run ≢ frames_per_huge
    → Current p (f + 1) run start
Step-Current p f run start s ne h = (omega (arith, s.length), s.end, s.free)

boundary-Current : (p : PhysBitmap) (f start : ℕ) → Current p (huge_last f + 1) 0 start
boundary-Current p f start h = absurd (h (omega arith))

pub scan_huge-IsFreeRun :
    (fuel f run start s : ℕ) (p : PhysBitmap)
    → Current p f run start
    → scan_huge fuel f run start p ≡ some s
    → (s % frames_per_huge ≡ 0)
      × (s + frames_per_huge ≤ p.total_frames)
      × IsFreeRun p s frames_per_huge
unfolding scan_huge
scan_huge-IsFreeRun zero f run start s p c e = absurd (cc)
scan_huge-IsFreeRun (suc k) f run start s p c e = elim (Bool-cases (ltb f p.total_frames)) [
  | inr out ↦ absurd (ground arith)
  | inl inside ↦ elim (Bool-cases (bit_test p f)) [
    | inr used ↦
        scan_huge-IsFreeRun k (huge_last f + 1) 0 (start_of f start) s p
          (boundary-Current p f (start_of f start)) (ground arith)
    | inl free ↦
        let step = Current-Step p f run start free c in
        elim (Bool-cases (run_of f run + 1 == frames_per_huge)) [
          | inl last ↦
              let es : start_of f start ≡ s = ground arith in
              let en : run_of f run + 1 ≡ frames_per_huge = ground arith in
              let at : start_of f start + frames_per_huge ≡ f + 1 = omega (arith, step.end) in
              (
                omega (arith, step.length),
                ground arith,
                λ g a b. step.free g (omega arith) (omega arith),
              )
          | inr more ↦
              scan_huge-IsFreeRun k (f + 1) (run_of f run + 1) (start_of f start) s p
                (Step-Current p f _ _ step (ground arith)) (ground arith)
        ]
  ]
]

-- With a round for each frame left, a scan that finds nothing has passed no aligned free run.
pub scan_huge_complete :
    (fuel f run start t : ℕ) (p : PhysBitmap)
    → Current p f run start
    → scan_huge fuel f run start p ≡ none
    → t % frames_per_huge ≡ 0
    → IsFreeRun p t frames_per_huge
    → t + frames_per_huge ≤ p.total_frames
    → f ≤ t + f % frames_per_huge
    → p.total_frames < fuel + f
    → ⊥
unfolding scan_huge
scan_huge_complete zero f run start t p c e al free h le enough = omega arith
scan_huge_complete (suc k) f run start t p c e al free h le enough =
    elim (Bool-cases (bit_test p f)) [
      | inl here ↦
          let step = Current-Step p f run start here c in
          elim (Bool-cases (run_of f run + 1 == frames_per_huge)) [
            | inl last ↦ ground arith
            | inr more ↦
                scan_huge_complete k (f + 1) (run_of f run + 1) (start_of f start) t p
                  (Step-Current p f _ _ step (ground arith)) (ground arith) al free h
                  (ground (arith, step.length)) (omega arith)
          ]
      | inr used ↦
          scan_huge_complete k (huge_last f + 1) 0 (start_of f start) t p
            (boundary-Current p f (start_of f start)) (ground arith) al free h
            (ground (arith, free f)) (omega arith)
    ]
