-- ===== src/Exfs/Runs/Blocks.antt =====
-- source/core/exfs/exfs.c: the disk blocks that a list of extents stands for, in logical order.
use mathlib.Core.List.{append-nil, append_assoc}
use xasmos.Base.{
  ℕ, zero, suc, ◌+◌, ◌-◌, ◌%◌, ◌^◌, ◌≤◌, ◌<◌, ◌≡◌, refl, ap, ap₂, ◌∙◌, true, false, ◌&&◌, Option,
  none, some, List, [], ◌∷◌, ◌++◌, ltb, leb, if◌then◌else◌, arith, add64, sub64, inl, inr,
  Bool-cases,
}
use xasmos.Exfs.Volume.{ExfsExtent}
use xasmos.Exfs.Runs.{cut_from, cut_to, phys_from, old_phys}

abbrev pub length : List ℕ → ℕ
length [] = 0
length (x ∷ xs) = suc (length xs)

abbrev pub get_elem? : List ℕ → ℕ → Option ℕ
get_elem? [] i = none
get_elem? (x ∷ xs) zero = some x
get_elem? (x ∷ xs) (suc i) = get_elem? xs i

-- `n` blocks from `b` on; block numbers are 64-bit.
unfoldable pub run : ℕ → ℕ → List ℕ
run b zero = []
run b (suc n) = (b % 2 ^ 64) ∷ run (b + 1) n

-- The blocks of the `n` extents from `i` on.
unfoldable pub spread : ℕ → ℕ → (ℕ → ExfsExtent) → List ℕ
spread zero i exts = []
spread (suc n) i exts = run (exts i).start (exts i).len ++ spread n (i + 1) exts

-- Of a list whose first entry is logical block `p`, those from `lo` up to `hi`.
unfoldable pub between : ℕ → ℕ → ℕ → List ℕ → List ℕ
between lo hi p [] = []
between lo hi p (x ∷ xs) =
    let rest = between lo hi (p + 1) xs in if leb lo p && ltb p hi then x ∷ rest else rest

pub length-append : (xs ys : List ℕ) → length (xs ++ ys) ≡ length xs + length ys
length-append [] ys = omega arith
length-append (x ∷ xs) ys = omega (arith, length-append xs ys)

pub length-run : (b n : ℕ) → length (run b n) ≡ n
unfolding run
length-run b zero = refl
length-run b (suc n) = ap suc (length-run (b + 1) n)

pub run-cong : (n a b : ℕ) → a % 2 ^ 64 ≡ b % 2 ^ 64 → run a n ≡ run b n
unfolding run
run-cong zero a b e = refl
run-cong (suc n) a b e = ap₂ ◌∷◌ e (run-cong n (a + 1) (b + 1) (omega arith))

pub run-add : (m n b : ℕ) → run b (m + n) ≡ run b m ++ run (b + m) n
unfolding run
run-add zero n b =
    let e : zero + n ≡ n = omega arith in let e' : b + zero ≡ b = omega arith in rw (e, e') refl
run-add (suc m) n b =
    let e : suc m + n ≡ suc (m + n) = omega arith in
    let e' : b + suc m ≡ b + 1 + m = omega arith in
    rw (e, e') (ap (◌∷◌ (b % 2 ^ 64)) (run-add m n (b + 1)))

pub between-append :
    (lo hi p : ℕ) (xs ys : List ℕ)
    → between lo hi p (xs ++ ys) ≡ between lo hi p xs ++ between lo hi (p + length xs) ys
unfolding between
between-append lo hi p [] ys = let e : p + zero ≡ p = omega arith in rw e refl
between-append lo hi p (x ∷ xs) ys =
    let e : p + suc (length xs) ≡ p + 1 + length xs = omega arith in
    let rest = between-append lo hi (p + 1) xs ys in
    elim (Bool-cases (leb lo p && ltb p hi)) [
      | inl q ↦ rw (q, e) (ap (◌∷◌ x) rest)
      | inr q ↦ rw (q, e) rest
    ]

-- Behind `hi` there is nothing left.
pub between-past : (lo hi p : ℕ) (xs : List ℕ) → hi ≤ p → between lo hi p xs ≡ []
unfolding between
between-past lo hi p [] h = refl
between-past lo hi p (x ∷ xs) h = ground (arith, between-past lo hi (p + 1) xs (omega arith))

pub spread-add_one :
    (n i : ℕ) (exts : ℕ → ExfsExtent)
    → spread (n + 1) i exts ≡ spread n i exts ++ run (exts (i + n)).start (exts (i + n)).len
unfolding spread
spread-add_one zero i exts =
    let e : i + zero ≡ i = omega arith in rw (e, append-nil (run (exts i).start (exts i).len)) refl
spread-add_one (suc n) i exts =
    let e : suc n + 1 ≡ suc (n + 1) = omega arith in
    let e' : i + suc n ≡ i + 1 + n = omega arith in
    rw (e, e', append_assoc)
      (ap (◌++◌ (run (exts i).start (exts i).len)) (spread-add_one n (i + 1) exts))

pub spread-cong :
    (n i : ℕ) (f g : ℕ → ExfsExtent)
    → ((j : ℕ) → i ≤ j → j < i + n → f j ≡ g j)
    → spread n i f ≡ spread n i g
unfolding spread
spread-cong zero i f g h = refl
spread-cong (suc n) i f g h =
    ap₂ ◌++◌ (ap (λ (e : ExfsExtent). run e.start e.len) (h i (omega arith) (omega arith)))
      (spread-cong n (i + 1) f g (λ j p q. h j (omega arith) (omega arith)))

pub length-spread :
    (n i : ℕ) (exts : ℕ → ExfsExtent)
    → length (spread (suc n) i exts) ≡ (exts i).len + length (spread n (i + 1) exts)
unfolding spread
length-spread n i exts = omega (
  arith,
  length-append (run (exts i).start (exts i).len) (spread n (i + 1) exts),
  length-run (exts i).start (exts i).len,
)

-- What `walk_old` cuts out of one extent.
pub between-run :
    (n lo hi p b : ℕ)
    → between lo hi p (run b n) ≡ run (b + (cut_from lo p - p)) (cut_to hi (p + n) - cut_from lo p)
unfolding between run
between-run zero lo hi p b =
    let e : cut_to hi (p + zero) - cut_from lo p ≡ 0 = ground arith in rw e refl
between-run (suc n) lo hi p b =
    let rest = between-run n lo hi (p + 1) (b + 1) in
    elim (Bool-cases (leb lo p && ltb p hi)) [
      | inl q ↦
          let e : b + (cut_from lo p - p) ≡ b = ground arith in
          let e' : cut_to hi (p + suc n) - cut_from lo p
              ≡ suc (cut_to hi (p + 1 + n) - cut_from lo (p + 1)) =
            ground arith in
          let e'' : b + 1 + (cut_from lo (p + 1) - (p + 1)) ≡ b + 1 = ground arith in
          rw (q, e, e') (ap (◌∷◌ (b % 2 ^ 64)) (rw e'' at rest))
      | inr q ↦ elim (Bool-cases (ltb p hi)) [
        | inl below ↦
            let e : b + (cut_from lo p - p) ≡ b + 1 + (cut_from lo (p + 1) - (p + 1)) =
              ground arith in
            let e' : cut_to hi (p + suc n) - cut_from lo p
                ≡ cut_to hi (p + 1 + n) - cut_from lo (p + 1) =
              ground arith in
            rw (q, e, e') rest
        | inr past ↦
            let e : cut_to hi (p + suc n) - cut_from lo p ≡ 0 = ground arith in
            rw (q, e) (between-past lo hi (p + 1) (run (b + 1) n) (ground arith))
      ]
    ]

get-append :
    (xs ys : List ℕ) (i : ℕ)
    → get_elem? (xs ++ ys) i
      ≡ (if ltb i (length xs) then get_elem? xs i else get_elem? ys (i - length xs))
get-append [] ys i = let e : i - zero ≡ i = omega arith in ground (arith, ap (get_elem? ys) e)
get-append (x ∷ xs) ys zero = ground arith
get-append (x ∷ xs) ys (suc i) =
    let e : suc i - suc (length xs) ≡ i - length xs = omega arith in
    ground (arith, get-append xs ys i, ap (get_elem? ys) e)

get-run : (n i b : ℕ) → i < n → get_elem? (run b n) i ≡ some ((b + i) % 2 ^ 64)
unfolding run
get-run zero i b p = absurd (omega arith)
get-run (suc n) zero b p = let e : b + zero ≡ b = omega arith in rw e refl
get-run (suc n) (suc i) b p =
    let e : b + suc i ≡ b + 1 + i = omega arith in rw e (get-run n i (b + 1) (omega arith))

phys_from-get :
    (n i lpos l : ℕ) (exts : ℕ → ExfsExtent)
    → lpos ≤ l
    → lpos + length (spread n i exts) < 2 ^ 64
    → phys_from n i lpos l exts ≡ get_elem? (spread n i exts) (l - lpos)
unfolding phys_from spread
phys_from-get zero i lpos l exts p q = refl
phys_from-get (suc n) i lpos l exts p q =
    let e = exts i in
    let size = length-append (run e.start e.len) (spread n (i + 1) exts) in
    let first = length-run e.start e.len in
    let word : add64 lpos e.len ≡ lpos + e.len = omega arith in
    let split = get-append (run e.start e.len) (spread n (i + 1) exts) (l - lpos) in
    elim (Bool-cases (ltb l (add64 lpos e.len))) [
      | inl h ↦
          let near : ltb (l - lpos) (length (run e.start e.len)) ≡ true = ground (arith, first) in
          let at = get-run e.len (l - lpos) e.start (ground arith) in
          let same : add64 e.start (sub64 l lpos) ≡ (e.start + (l - lpos)) % 2 ^ 64 =
            ground arith in
          rw (h, split, near, at) (ap some same)
      | inr h ↦
          let far : ltb (l - lpos) (length (run e.start e.len)) ≡ false = ground (arith, first) in
          let on : l - lpos - length (run e.start e.len) ≡ l - (lpos + e.len) =
            omega (arith, first) in
          let rest = phys_from-get n (i + 1) (lpos + e.len) l exts (ground arith) (omega arith) in
          rw (h, split, far, on, word) rest
    ]

-- For a file of fewer than 2^64 blocks, `old_phys` gives the disk block of each logical block, and an
-- error behind the last.
pub old_phys-get :
    (n l : ℕ) (exts : ℕ → ExfsExtent)
    → length (spread n 0 exts) < 2 ^ 64
    → old_phys n l exts ≡ get_elem? (spread n 0 exts) l
unfolding old_phys
old_phys-get n l exts p =
    let e : l - 0 ≡ l = omega arith in
    phys_from-get n 0 0 l exts (omega arith) (omega arith) ∙ rw e refl
