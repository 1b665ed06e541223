-- ===== src/Bitmap/Bytes.antt =====
-- The bits of one byte, decided by evaluation over all bytes.
use xasmos.Base.{
  ℕ, zero, suc, ◌-◌, ◌/◌, ◌%◌, ◌^◌, ◌<◌, ◌≡◌, refl, Bool, true, false, ◌&&◌, bit_and, bit_or, arith,
  ◌==◌, if◌then◌else◌,
}

-- (b >> k) & 1
unfoldable pub test_byte : ℕ → ℕ → Bool
test_byte b k = bit_and (b / 2 ^ k) 1 == 1

-- (uint8_t)(b | (1u << k))
unfoldable pub set_byte : ℕ → ℕ → ℕ
set_byte b k = bit_or b (2 ^ k) % 256

-- (uint8_t)(b & ~(1u << k)), the complement of a 32-bit word
unfoldable pub clear_byte : ℕ → ℕ → ℕ
clear_byte b k = bit_and b (2 ^ 32 - 1 - 2 ^ k) % 256

holds_for : (ℕ → Bool) → ℕ → Bool
holds_for p zero = true
holds_for p (suc k) = holds_for p k && p k

holds_at : (p : ℕ → Bool) (k : ℕ) {x : ℕ} → x < k → holds_for p k ≡ true → p x ≡ true
unfolding holds_for
holds_at p zero lt all = absurd (omega arith)
holds_at p (suc k) {x = x} lt all = ground (arith, holds_at p k {x = x})

same : Bool → Bool → Bool
same true b = b
same false true = false
same false false = true

same_sound : (a b : Bool) → same a b ≡ true → a ≡ b
unfolding same
same_sound a b h = ground arith

abbrev set_row : ℕ → ℕ → ℕ → Bool
set_row b k j = same (test_byte (set_byte b k) j) (if j == k then true else test_byte b j)

abbrev clear_row : ℕ → ℕ → ℕ → Bool
clear_row b k j = same (test_byte (clear_byte b k) j) (if j == k then false else test_byte b j)

abbrev set_bit_ok : ℕ → ℕ → Bool
set_bit_ok b k = holds_for (set_row b k) 8

abbrev set_byte_ok : ℕ → Bool
set_byte_ok b = holds_for (set_bit_ok b) 8

abbrev clear_bit_ok : ℕ → ℕ → Bool
clear_bit_ok b k = holds_for (clear_row b k) 8

abbrev clear_byte_ok : ℕ → Bool
clear_byte_ok b = holds_for (clear_bit_ok b) 8

set_table : holds_for set_byte_ok 256 ≡ true
unfolding holds_for same test_byte set_byte
set_table = refl

clear_table : holds_for clear_byte_ok 256 ≡ true
unfolding holds_for same test_byte clear_byte
clear_table = refl

pub set_byte-lt : (b k : ℕ) → set_byte b k < 256
unfolding set_byte
set_byte-lt b k = omega arith

pub clear_byte-lt : (b k : ℕ) → clear_byte b k < 256
unfolding clear_byte
clear_byte-lt b k = omega arith

zero_table : holds_for (λ k. same (test_byte 0 k) false) 8 ≡ true
unfolding holds_for same test_byte
zero_table = refl

pub test_byte-zero : (k : ℕ) → k < 8 → test_byte 0 k ≡ false
test_byte-zero k h = same_sound _ _ (holds_at (λ k. same (test_byte 0 k) false) 8 h zero_table)

-- Setting bit `k` of a byte sets that bit and no other.
pub test-set_byte :
    (b k j : ℕ)
    → b < 256
    → k < 8
    → j < 8
    → test_byte (set_byte b k) j ≡ (if j == k then true else test_byte b j)
test-set_byte b k j hb hk hj =
    let bits = holds_at set_byte_ok 256 hb set_table in
    same_sound _ _ (holds_at (set_row b k) 8 hj (holds_at (set_bit_ok b) 8 hk bits))

pub test-clear_byte :
    (b k j : ℕ)
    → b < 256
    → k < 8
    → j < 8
    → test_byte (clear_byte b k) j ≡ (if j == k then false else test_byte b j)
test-clear_byte b k j hb hk hj =
    let bits = holds_at clear_byte_ok 256 hb clear_table in
    same_sound _ _ (holds_at (clear_row b k) 8 hj (holds_at (clear_bit_ok b) 8 hk bits))
