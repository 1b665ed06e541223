-- ===== src/Exfs/Pool/Slots.antt =====
-- source/core/exfs/exfs.c: the capacity of a slice, and the search for a free one.
use xasmos.Base.{
  ℕ, zero, suc, ◌+◌, ◌-◌, ◌*◌, ◌%◌, ◌^◌, ◌≤◌, ◌<◌, ◌≡◌, ◌⊎◌, refl, Bool, true, false, ◌&&◌, some,
  ltb, leb, ◌==◌, if◌then◌else◌, arith, inl, inr, Bool-cases, some-injective,
}
use xasmos.Bitmap.{Bits, mark, clear, test-mark, test-clear}
use xasmos.Exfs.Volume.{pool_ext}
use xasmos.Exfs.Pool.{
  pool_min_cap, pool_is_used, pool_mark, pool_find_from, pool_find, double_cap, slice_cap_for,
}

-- `c`, doubled `k` times.
unfoldable pub doubled : ℕ → ℕ → ℕ
doubled zero c = c
doubled (suc k) c = doubled k (c * 2)

le-doubled : (k c : ℕ) → c ≤ doubled k c
unfolding doubled
le-doubled zero c = omega arith
le-doubled (suc k) c = omega (arith, le-doubled k (c * 2))

-- The capacity found for `n`: large enough, less than twice as large unless it is the start, and the
-- start doubled.
pub record Capacity (start n c : ℕ) : Type 0 where
  pub enough : n ≤ c
  pub tight : (c ≡ start) ⊎ (c < 2 * n)
  pub rounds : ℕ
  pub power : c ≡ doubled rounds start

double_cap-Capacity :
    (fuel c n : ℕ)
    → n ≤ doubled fuel c
    → doubled fuel c ≤ 2 ^ 31
    → (r : ℕ) × (double_cap fuel c n ≡ some r) × Capacity c n r
unfolding double_cap doubled
double_cap-Capacity zero c n p q = elim (Bool-cases (ltb c n)) [
  | inl e ↦ absurd (ground arith)
  | inr e ↦
      (c, rw e refl, record { enough = ground arith; tight = inl refl; rounds = 0; power = refl })
]
double_cap-Capacity (suc fuel) c n p q = elim (Bool-cases (ltb c n)) [
  | inl e ↦
      let word : c * 2 % 2 ^ 32 ≡ c * 2 = omega (arith, le-doubled fuel (c * 2)) in
      let (r, at, found) = double_cap-Capacity fuel (c * 2) n p q in
      (
        r,
        rw (e, word) at,
        record {
          enough = found.enough;
          tight = elim (found.tight) [ inl same ↦ inr (ground arith) | inr less ↦ inr less ];
          rounds = suc found.rounds;
          power = found.power;
        },
      )
  | inr e ↦
      (c, rw e refl, record { enough = ground arith; tight = inl refl; rounds = 0; power = refl })
]

-- The doubling loop of `slice_cap_for` ends for every `n` up to 2^31, in at most 28 rounds: with 8, or
-- with 8 doubled until it is at least `n`, and then it is less than `2 n`.
pub slice_cap_for-Capacity :
    (n : ℕ) → n ≤ 2 ^ 31 → (c : ℕ) × (slice_cap_for n ≡ some c) × Capacity pool_min_cap n c
unfolding slice_cap_for doubled
slice_cap_for-Capacity n p = double_cap-Capacity 28 8 n p (omega arith)

-- No slot from `off` on is used, `cap` of them.
unfoldable pub AreFree : ℕ → ℕ → Bits → Type 0
AreFree off cap used = (j : ℕ) → off ≤ j → j < off + cap → pool_is_used used j ≡ false

-- A slice that `pool_mark` marks reads so, and no other slot changes.
pub is_used-pool_mark :
    (cap off j : ℕ) (on : Bool) (used : Bits)
    → pool_is_used (pool_mark off cap on used) j
      ≡ (if leb off j && ltb j (off + cap) then on else pool_is_used used j)
unfolding pool_mark pool_is_used
is_used-pool_mark zero off j on used = ground arith
is_used-pool_mark (suc cap) off j true used =
    ground (arith, is_used-pool_mark cap (off + 1) j true (mark used off), test-mark used off j)
is_used-pool_mark (suc cap) off j false used =
    ground (arith, is_used-pool_mark cap (off + 1) j false (clear used off), test-clear used off j)

find_from-AreFree :
    (n i run cap off : ℕ) (used : Bits)
    → run < cap
    → AreFree (i - run) run used
    → run ≤ i
    → pool_find_from n i run cap used ≡ some off
    → (off + cap ≤ i + n) × AreFree off cap used
unfolding pool_find_from AreFree
find_from-AreFree zero i run cap off used p h q e = absurd (cc)
find_from-AreFree (suc n) i run cap off used p h q e = elim (Bool-cases (pool_is_used used i)) [
  | inl taken ↦
      let rest =
        find_from-AreFree n (i + 1) 0 cap off used (omega arith) (λ j a b. absurd (omega arith))
          (omega arith) (rw taken at e) in
      (omega (arith, rest.0), rest.1)
  | inr empty ↦ elim (Bool-cases (run + 1 == cap)) [
    | inl full ↦
        let at : i + 1 - cap ≡ off = some-injective (rw (empty, full) at e) in
        (
          ground arith,
          λ j a b. elim (Bool-cases (j == i)) [
            | inl s ↦ ground (arith, empty)
            | inr s ↦ h j (ground arith) (ground arith)
          ],
        )
    | inr more ↦
        let rest =
          find_from-AreFree n (i + 1) (run + 1) cap off used (ground arith)
            (λ j a b. elim (Bool-cases (j == i)) [
              | inl s ↦ ground (arith, empty)
              | inr s ↦ h j (ground arith) (ground arith)
            ])
            (omega arith) (rw (empty, more) at e) in
        (omega (arith, rest.0), rest.1)
  ]
]

find_from_complete :
    (n i run cap o : ℕ) (used : Bits)
    → run < cap
    → i ≤ o + run
    → o + cap ≤ i + n
    → AreFree o cap used
    → (off : ℕ) × (pool_find_from n i run cap used ≡ some off)
unfolding pool_find_from AreFree
find_from_complete zero i run cap o used p q r h = absurd (omega arith)
find_from_complete (suc n) i run cap o used p q r h = elim (Bool-cases (pool_is_used used i)) [
  | inl taken ↦
      let behind : i < o = ground (arith, h i) in
      rw taken
        (find_from_complete n (i + 1) 0 cap o used (omega arith) (omega arith) (omega arith) h)
  | inr empty ↦ elim (Bool-cases (run + 1 == cap)) [
    | inl full ↦ (i + 1 - cap, rw (empty, full) refl)
    | inr more ↦
        rw (empty, more)
          (find_from_complete n (i + 1) (run + 1) cap o used (ground arith) (omega arith)
            (omega arith) h)
  ]
]

-- For a capacity that is not 0: what `pool_find` finds is a run of free slots inside the pool, and if
-- there is any such run, it finds one.
pub pool_find_exact :
    (cap : ℕ) (used : Bits)
    → 0 < cap
    → ((off : ℕ) → pool_find cap used ≡ some off → (off + cap ≤ pool_ext) × AreFree off cap used)
      × ((o : ℕ)
          → o + cap ≤ pool_ext
          → AreFree o cap used
          → (off : ℕ) × (pool_find cap used ≡ some off))
unfolding pool_find
pool_find_exact cap used p = (
  λ off e.
      let found =
        find_from-AreFree pool_ext 0 0 cap off used p
          (unfold AreFree in λ j a b. absurd (omega arith)) (omega arith) e in
      (omega (arith, found.0), found.1),
  λ o q h. find_from_complete pool_ext 0 0 cap o used p (omega arith) (omega arith) h,
)
