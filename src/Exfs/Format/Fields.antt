-- ===== src/Exfs/Format/Fields.antt =====
-- The little-endian fields of a page: what is read back after a write.
use xasmos.Base.{
  ℕ, ◌+◌, ◌-◌, ◌/◌, ◌%◌, ◌^◌, ◌≤◌, ◌<◌, ◌≡◌, ◌⊎◌, ap, ◌∙◌, ◌&&◌, ltb, leb, ◌==◌, if◌then◌else◌,
  arith, for_up, for_up_inv, inl, inr, Bool-cases,
}
use xasmos.Exfs.Format.{Page, put8, put32, put64, get32, get64}

-- The cells of a 32-bit field.
pub put32-cell :
    (at v j : ℕ) (p : Page)
    → put32 at v p j ≡ (
        if j == at
        then v % 256
        else if j == at + 1
        then v / 2 ^ 8 % 256
        else if j == at + 2
        then v / 2 ^ 16 % 256
        else if j == at + 3
        then v / 2 ^ 24 % 256
        else p j)
unfolding put32 put8
put32-cell at v j p = ground arith

pub put32-outside : (at v j : ℕ) (p : Page) → (j < at) ⊎ (at + 4 ≤ j) → put32 at v p j ≡ p j
put32-outside at v j p (inl h) = ground (arith, put32-cell at v j p)
put32-outside at v j p (inr h) = ground (arith, put32-cell at v j p)

pub put64-outside : (at v j : ℕ) (p : Page) → (j < at) ⊎ (at + 8 ≤ j) → put64 at v p j ≡ p j
unfolding put64
put64-outside at v j p (inl h) =
    put32-outside (at + 4) (v / 2 ^ 32 % 2 ^ 32) j _ (inl (omega arith))
    ∙ put32-outside at (v % 2 ^ 32) j p (inl h)
put64-outside at v j p (inr h) =
    put32-outside (at + 4) (v / 2 ^ 32 % 2 ^ 32) j _ (inr (omega arith))
    ∙ put32-outside at (v % 2 ^ 32) j p (inr (omega arith))

-- Pages that agree on the cells of a field read the same.
pub get32-cong :
    (at : ℕ) (p q : Page) → ((j : ℕ) → at ≤ j → j < at + 4 → p j ≡ q j) → get32 at p ≡ get32 at q
unfolding get32
get32-cong at p q h = omega (
  arith,
  h at (omega arith) (omega arith),
  h (at + 1) (omega arith) (omega arith),
  h (at + 2) (omega arith) (omega arith),
  h (at + 3) (omega arith) (omega arith),
)

pub get64-cong :
    (at : ℕ) (p q : Page) → ((j : ℕ) → at ≤ j → j < at + 8 → p j ≡ q j) → get64 at p ≡ get64 at q
unfolding get64
get64-cong at p q h = omega (
  arith,
  get32-cong at p q (λ j a b. h j a (omega arith)),
  get32-cong (at + 4) p q (λ j a b. h j (omega arith) (omega arith)),
)

pub get32-put32 : (at v : ℕ) (p : Page) → get32 at (put32 at v p) ≡ v % 2 ^ 32
unfolding get32
get32-put32 at v p =
    let c0 : put32 at v p at ≡ v % 256 = ground (arith, put32-cell at v at p) in
    let c1 : put32 at v p (at + 1) ≡ v / 2 ^ 8 % 256 = ground (arith, put32-cell at v (at + 1) p) in
    let c2 : put32 at v p (at + 2) ≡ v / 2 ^ 16 % 256 =
      ground (arith, put32-cell at v (at + 2) p) in
    let c3 : put32 at v p (at + 3) ≡ v / 2 ^ 24 % 256 =
      ground (arith, put32-cell at v (at + 3) p) in
    omega arith

pub get64-put64 : (at v : ℕ) (p : Page) → get64 at (put64 at v p) ≡ v % 2 ^ 64
unfolding get64 put64
get64-put64 at v p =
    let q = put32 at (v % 2 ^ 32) p in
    let high = get32-put32 (at + 4) (v / 2 ^ 32 % 2 ^ 32) q in
    let kept =
      get32-cong at (put32 (at + 4) (v / 2 ^ 32 % 2 ^ 32) q) q
        (λ j a b. put32-outside (at + 4) (v / 2 ^ 32 % 2 ^ 32) j q (inl (omega arith))) in
    let low = get32-put32 at (v % 2 ^ 32) p in omega arith

-- A loop that writes `n` bytes from `at` on.
pub put_bytes :
    (n at : ℕ) (g : ℕ → ℕ) (p : Page) (j : ℕ)
    → for_up n 0 (λ i q. put8 (at + i) (g i) q) p j
      ≡ (if leb at j && ltb j (at + n) then g (j - at) % 256 else p j)
unfolding put8
put_bytes n at g p =
    for_up_inv
      (λ k q. (j : ℕ) → q j ≡ (if leb at j && ltb j (at + k) then g (j - at) % 256 else p j))
      (λ i q. put8 (at + i) (g i) q) n 0 n
      (λ k q a b h j. elim (Bool-cases (j == at + k)) [
        | inl e ↦ let back : j - at ≡ k = ground arith in ground (arith, ap g back)
        | inr e ↦ ground (arith, h j)
      ])
      p (omega arith) (λ j. ground arith)
