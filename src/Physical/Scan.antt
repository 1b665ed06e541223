-- ===== src/Physical/Scan.antt =====
-- The scan of `phys_alloc_frames` of physical.c.
use xasmos.Base.{
  ℕ, zero, suc, ◌+◌, ◌≤◌, ◌<◌, ◌≡◌, ◌≢◌, refl, true, none, some, arith, ◌==◌, leb, if◌then◌else◌,
  Bool-cases, inl, inr,
}
use xasmos.Physical.State.{PhysBitmap, bit_test}
use xasmos.Physical.Alloc.{scan}

-- The `n` frames from `s` on are free.
abbrev pub IsFreeRun : PhysBitmap → ℕ → ℕ → Type 0
IsFreeRun p s n = (g : ℕ) → s ≤ g → g < s + n → bit_test p g ≡ true

-- The frames of the current run: `run` frames that end before `f`.
abbrev Current : PhysBitmap → ℕ → ℕ → ℕ → Type 0
Current p f run start = run ≢ 0 → (start + run ≡ f) × IsFreeRun p start run

abbrev start_of : ℕ → ℕ → ℕ → ℕ
start_of f run start = if run == 0 then f else start

Current-Step :
    (p : PhysBitmap) (f run start : ℕ)
    → bit_test p f ≡ true
    → Current p f run start
    → (start_of f run start + (run + 1) ≡ f + 1) × IsFreeRun p (start_of f run start) (run + 1)
Current-Step p f run start free c = elim (Bool-cases (run == 0)) [
  | inl e ↦ (ground arith, λ g a b. let h : g ≡ f = ground arith in rw h free)
  | inr e ↦ (
    ground (arith, c (ground arith)),
    λ g a b. elim (Bool-cases (g == f)) [
      | inl h ↦ let h' : g ≡ f = ground arith in rw h' free
      | inr h ↦ (c (ground arith)).1 g (ground arith) (ground (arith, (c (ground arith)).0))
    ],
  )
]

-- A run that the scan returns is free and lies inside the bitmap.
pub scan-IsFreeRun :
    (rounds f n run start s : ℕ) (p : PhysBitmap)
    → Current p f run start
    → scan rounds f n run start p ≡ some s
    → (s + n ≤ f + rounds) × IsFreeRun p s n
unfolding scan
scan-IsFreeRun zero f n run start s p c e = absurd (cc)
scan-IsFreeRun (suc k) f n run start s p c e = elim (Bool-cases (bit_test p f)) [
  | inl free ↦
      let step = Current-Step p f run start free c in
      elim (Bool-cases (run + 1 == n)) [
        | inl last ↦
            let es : start_of f run start ≡ s = ground arith in
            let en : run + 1 ≡ n = ground arith in rw (← es, ← en) (omega (arith, step.0), step.1)
        | inr more ↦
            let rest =
              scan-IsFreeRun k (f + 1) n (run + 1) (start_of f run start) s p (λ _. step)
                (ground arith) in
            (omega (arith, rest.0), rest.1)
      ]
  | inr used ↦
      let rest = scan-IsFreeRun k (f + 1) n 0 start s p (λ h. absurd (h refl)) (ground arith) in
      (omega (arith, rest.0), rest.1)
]

-- A scan that finds nothing has passed no free run of `n` frames.
pub scan_complete :
    (rounds f n run start t : ℕ) (p : PhysBitmap)
    → scan rounds f n run start p ≡ none
    → IsFreeRun p t n
    → f ≤ t + run
    → t + n ≤ f + rounds
    → run < n
    → ⊥
unfolding scan
scan_complete zero f n run start t p e free a b c = omega arith
scan_complete (suc k) f n run start t p e free a b c = elim (Bool-cases (bit_test p f)) [
  | inl here ↦ elim (Bool-cases (run + 1 == n)) [
    | inl last ↦ ground arith
    | inr more ↦
        scan_complete k (f + 1) n (run + 1) (start_of f run start) t p (ground arith) free
          (omega arith) (omega arith) (ground arith)
  ]
  | inr used ↦ elim (Bool-cases (leb t f)) [
    | inl past ↦ ground (arith, free f)
    | inr before ↦
        scan_complete k (f + 1) n 0 start t p (ground arith) free (ground arith) (omega arith)
          (omega arith)
  ]
]
