-- ===== src/Base/Loops.antt =====
-- Counted loops.
use Prim.Native.Nat.{ℕ, zero, suc, ◌+◌, ◌≤◌, ◌<◌}
use mathlib.Core.Path.{◌≡◌}
use native.Mathlib.Omega.{arith}

-- for (f = i; f < i + n; f++) s = body f s
unfoldable pub for_up {ℓ} : {S : Type ℓ} → ℕ → ℕ → (ℕ → S → S) → S → S
for_up zero i body s = s
for_up (suc n) i body s = for_up n (i + 1) body (body i s)

-- A statement about the rounds done holds at the end if each round keeps it.
pub for_up_inv {ℓ κ} :
    {S : Type ℓ} (P : ℕ → S → Type κ) (body : ℕ → S → S) (n i j : ℕ)
    → ((k : ℕ) (s : S) → i ≤ k → k < j → P k s → P (k + 1) (body k s))
    → (s : S) → i + n ≡ j
    → P i s
    → P j (for_up n i body s)
unfolding for_up
for_up_inv P body zero i j keep s e h = let e' : i ≡ j = omega arith in rw (← e') h
for_up_inv P body (suc n) i j keep s e h =
    for_up_inv P body n (i + 1) j (λ k t p q r. keep k t (omega arith) q r) (body i s) (omega arith)
      (keep i s (omega arith) (omega arith) h)
