-- ===== src/Base/Arrays.antt =====
-- C arrays as functions from the index, the update of one cell, and sums over the first cells.
use Prim.Native.Nat.{ℕ, zero, suc, ◌+◌, ◌*◌, ◌≤◌, ◌<◌}
use mathlib.Core.Path.{◌≡◌, refl, ap₂}
use mathlib.Core.Bool.{false}
use mathlib.Core.Logic.{inl, inr}
use native.Mathlib.Omega.{arith}
use native.Mathlib.Numerals.{add-one}
use xasmos.Base.Tests.{◌==◌, if◌then◌else◌, Bool-cases}

abbrev pub update {ℓ} : {A : Type ℓ} → (cells : ℕ → A) (at : ℕ) → A → (ℕ → A)
update cells at new i = if i == at then new else cells i

-- The weights of the first `n` cells, added up.
unfoldable pub sum_below : (cells : ℕ) → (weight : ℕ → ℕ) → ℕ
sum_below zero w = 0
sum_below (suc n) w = sum_below n w + w n

pub sum_below-none : (w : ℕ → ℕ) → sum_below 0 w ≡ 0
unfolding sum_below
sum_below-none w = refl

pub sum_below-next : (n : ℕ) (w : ℕ → ℕ) → sum_below (n + 1) w ≡ sum_below n w + w n
unfolding sum_below
sum_below-next n w = let next : n + 1 ≡ suc n = omega arith in rw next refl

pub sum_below-cong :
    (n : ℕ) (v w : ℕ → ℕ) → ((i : ℕ) → i < n → v i ≡ w i) → sum_below n v ≡ sum_below n w
unfolding sum_below
sum_below-cong zero v w h = refl
sum_below-cong (suc n) v w h =
    ap₂ ◌+◌ (sum_below-cong n v w (λ i p. h i (omega arith))) (h n (omega arith))

-- A change of one cell changes the sum by that cell.
pub sum_below-change :
    (n i : ℕ) (v w : ℕ → ℕ)
    → i < n
    → ((j : ℕ) → (j == i) ≡ false → w j ≡ v j)
    → sum_below n w + v i ≡ sum_below n v + w i
unfolding sum_below
sum_below-change zero i v w p h = absurd (omega arith)
sum_below-change (suc n) i v w p h = elim (Bool-cases (n == i)) [
  | inl e ↦
      let rest : sum_below n w ≡ sum_below n v = sum_below-cong n w v (λ j q. h j (ground arith)) in
      ground arith
  | inr e ↦ ground (arith, sum_below-change n i v w (ground arith) h, h n)
]

pub sum_below-eq-zero : (n : ℕ) (w : ℕ → ℕ) → ((i : ℕ) → i < n → w i ≡ 0) → sum_below n w ≡ 0
unfolding sum_below
sum_below-eq-zero zero w h = refl
sum_below-eq-zero (suc n) w h =
    omega (arith, sum_below-eq-zero n w (λ i p. h i (omega arith)), h n (omega arith))

pub le-sum_below : (n i : ℕ) (w : ℕ → ℕ) → i < n → w i ≤ sum_below n w
unfolding sum_below
le-sum_below zero i w p = absurd (omega arith)
le-sum_below (suc n) i w p = elim (Bool-cases (n == i)) [
  | inl e ↦ ground arith
  | inr e ↦ omega (arith, le-sum_below n i w (ground arith))
]

pub sum_below-add_one : (n : ℕ) (w : ℕ → ℕ) → sum_below (n + 1) w ≡ sum_below n w + w n
unfolding sum_below
sum_below-add_one n w = rw add-one refl

pub sum_below-le : (n c : ℕ) (w : ℕ → ℕ) → ((i : ℕ) → i < n → w i ≤ c) → sum_below n w ≤ n * c
unfolding sum_below
sum_below-le zero c w h = omega arith
sum_below-le (suc n) c w h =
    omega (arith, sum_below-le n c w (λ i p. h i (omega arith)), h n (omega arith))
