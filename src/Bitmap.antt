-- ===== src/Bitmap.antt =====
-- The bitmap idiom of mem/physical.c, exfs/gmap.c and the extent pool of exfs/exfs.c: bit `i` of an
-- array of bytes is bit `i & 7` of byte `i >> 3`. A cell of a byte array is read modulo 256.
mod Bytes
unfoldable pub use Bytes.{test_byte, set_byte, clear_byte}
use Bytes.{test-set_byte, test-clear_byte}
use Bytes.{set_byte-lt, clear_byte-lt, test_byte-zero}
use xasmos.Base.{
  ℕ, zero, suc, ◌+◌, ◌*◌, ◌/◌, ◌%◌, ◌<◌, ◌≤◌, ◌≡◌, refl, Bool, true, false, arith, ◌==◌,
  if◌then◌else◌, update, inl, inr, Bool-cases, sum_below, sum_below-change, sum_below-cong,
  sum_below-eq-zero, ap,
}

-- An array of bytes.
abbrev pub Bits : Type 0
Bits = ℕ → ℕ

unfoldable pub test : Bits → ℕ → Bool
test m i = test_byte (m (i / 8) % 256) (i % 8)

unfoldable pub mark : Bits → ℕ → Bits
mark m i = update m (i / 8) (set_byte (m (i / 8) % 256) (i % 8))

unfoldable pub clear : Bits → ℕ → Bits
clear m i = update m (i / 8) (clear_byte (m (i / 8) % 256) (i % 8))

-- A bit that is set reads as set, and no other bit changes.
pub test-mark : (m : Bits) (i j : ℕ) → test (mark m i) j ≡ (if j == i then true else test m j)
unfolding test mark
test-mark m i j = ground (
  arith,
  test-set_byte (m (i / 8) % 256) (i % 8) (j % 8) (omega arith) (omega arith) (omega arith),
  set_byte-lt (m (i / 8) % 256) (i % 8),
)

-- So with clearing.
pub test-clear : (m : Bits) (i j : ℕ) → test (clear m i) j ≡ (if j == i then false else test m j)
unfolding test clear
test-clear m i j = ground (
  arith,
  test-clear_byte (m (i / 8) % 256) (i % 8) (j % 8) (omega arith) (omega arith) (omega arith),
  clear_byte-lt (m (i / 8) % 256) (i % 8),
)

pub test-zero : (i : ℕ) → test (λ _. 0) i ≡ false
unfolding test
test-zero i = test_byte-zero (i % 8) (omega arith)

-- How many of the first `n` bits are set.
unfoldable pub weigh : Bool → ℕ
weigh true = 1
weigh false = 0

unfoldable pub count : ℕ → Bits → ℕ
count n m = sum_below n (λ i. weigh (test m i))

pub count-le : (n : ℕ) (m : Bits) → count n m ≤ n
unfolding count sum_below weigh
count-le zero m = omega arith
count-le (suc n) m = ground (arith, count-le n m)

pub count-mark :
    (n i : ℕ) (m : Bits) → i < n → test m i ≡ false → count n (mark m i) ≡ count n m + 1
unfolding count weigh
count-mark n i m p e = ground (
  arith,
  sum_below-change n i (λ j. weigh (test m j)) (λ j. weigh (test (mark m i) j)) p
      (λ j q. ground (arith, test-mark m i j)),
  test-mark m i i,
)

pub count-clear :
    (n i : ℕ) (m : Bits) → i < n → test m i ≡ true → count n (clear m i) + 1 ≡ count n m
unfolding count weigh
count-clear n i m p e = ground (
  arith,
  sum_below-change n i (λ j. weigh (test m j)) (λ j. weigh (test (clear m i) j)) p
      (λ j q. ground (arith, test-clear m i j)),
  test-clear m i i,
)

-- Bitmaps that agree below `n` have as many set bits there.
pub count-cong :
    (n : ℕ) (m k : Bits) → ((i : ℕ) → i < n → test m i ≡ test k i) → count n m ≡ count n k
unfolding count
count-cong n m k h = sum_below-cong n _ _ (λ i p. ap weigh (h i p))

pub count-zero : (n : ℕ) → count n (λ _. 0) ≡ 0
unfolding count weigh
count-zero n = sum_below-eq-zero n _ (λ i _. rw (test-zero i) refl)
