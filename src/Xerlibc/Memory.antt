-- ===== src/Xerlibc/Memory.antt =====
-- source/core/xerlibc/src/mem.c. An object does not wrap around the end of the address space.
use xasmos.Base.{
  ℕ, zero, suc, ◌+◌, ◌-◌, ◌%◌, ◌≤◌, ◌<◌, ◌≡◌, ap, Bool, true, ◌&&◌, ◌||◌, Option, none, some, ltb,
  leb, ◌==◌, if◌then◌else◌, arith, update, if_both,
}

abbrev pub Memory : Type 0
Memory = ℕ → ℕ

-- while (n--) *d++ = *s++;
unfoldable pub copy_up : ℕ → ℕ → ℕ → Memory → Memory
copy_up zero d s m = m
copy_up (suc n) d s m = copy_up n (d + 1) (s + 1) (update m d (m s))

-- while (n--) *--d = *--s; from the ends of both
unfoldable pub copy_down : ℕ → ℕ → ℕ → Memory → Memory
copy_down zero d s m = m
copy_down (suc n) d s m = copy_down n d s (update m (d + n) (m (s + n)))

unfoldable pub memcpy : ℕ → ℕ → ℕ → Memory → Memory
memcpy dst src n m = copy_up n dst src m

unfoldable pub memmove : ℕ → ℕ → ℕ → Memory → Memory
memmove dst src n m =
    if ltb dst src || leb (src + n) dst then copy_up n dst src m else copy_down n dst src m

unfoldable pub fill : ℕ → ℕ → ℕ → Memory → Memory
fill zero d v m = m
fill (suc n) d v m = fill n (d + 1) v (update m d v)

unfoldable pub memset : ℕ → ℕ → ℕ → Memory → Memory
memset dst c n m = fill n dst (c % 256) m

-- The first two bytes that differ, if any do: the result of `memcmp` is their difference.
unfoldable pub memcmp : ℕ → ℕ → ℕ → Memory → Option (ℕ × ℕ)
memcmp a b zero m = none
memcmp a b (suc n) m =
    let rest = memcmp (a + 1) (b + 1) n m in if m a == m b then rest else some (m a, m b)

-- The address of the byte; `none` is the null pointer.
unfoldable pub find_byte : ℕ → ℕ → ℕ → Memory → Option ℕ
find_byte zero p v m = none
find_byte (suc n) p v m = let rest = find_byte n (p + 1) v m in if m p == v then some p else rest

unfoldable pub memchr : ℕ → ℕ → ℕ → Memory → Option ℕ
memchr s c n m = find_byte n s (c % 256) m

-- Whether `j` lies in the `n` bytes from `d` on.
abbrev pub in_object : ℕ → ℕ → ℕ → Bool
in_object d n j = leb d j && ltb j (d + n)

copy_up-at :
    (n d s : ℕ) (m : Memory) (j : ℕ)
    → (ltb d s || leb (s + n) d) ≡ true
    → copy_up n d s m j ≡ (if in_object d n j then m (s + (j - d)) else m j)
unfolding copy_up
copy_up-at zero d s m j h = ground arith
copy_up-at (suc n) d s m j h =
    let m' = update m d (m s) in
    let rest = copy_up-at n (d + 1) (s + 1) m' j (ground arith) in
    let first : j ≡ d → m (s + (j - d)) ≡ m s = λ e. ap m (omega arith) in
    let later : d < j → m (s + 1 + (j - (d + 1))) ≡ m (s + (j - d)) = λ p. ap m (omega arith) in
    ground (arith, rest, first, later)

copy_down-at :
    (n d s : ℕ) (m : Memory) (j : ℕ)
    → s ≤ d
    → copy_down n d s m j ≡ (if in_object d n j then m (s + (j - d)) else m j)
unfolding copy_down
copy_down-at zero d s m j h = ground arith
copy_down-at (suc n) d s m j h =
    let rest = copy_down-at n d s (update m (d + n) (m (s + n))) j h in
    let last : j ≡ d + n → m (s + (j - d)) ≡ m (s + n) = λ e. ap m (omega arith) in
    ground (arith, rest, last)

-- `memmove` leaves at the destination the bytes that the source held before, however the two
-- overlap, and changes no other byte.
pub memmove_lem :
    (dst src n : ℕ) (m : Memory) (j : ℕ)
    → memmove dst src n m j ≡ (if in_object dst n j then m (src + (j - dst)) else m j)
unfolding memmove
memmove_lem dst src n m j =
    if_both (λ (r : Memory). r j ≡ (if in_object dst n j then m (src + (j - dst)) else m j))
      (ltb dst src || leb (src + n) dst) _ _ (λ e. copy_up-at n dst src m j e)
      (λ e. copy_down-at n dst src m j (ground arith))
