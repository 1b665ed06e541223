-- ===== src/Exfs/Names/Spells.antt =====
-- source/core/exfs/exfs.c: a name in an array of characters, and the search for a name.
use xasmos.Base.{
  ℕ, zero, suc, ◌+◌, ◌≤◌, ◌<◌, ◌≡◌, refl, sym, ap₂, ◌∙◌, Bool, true, false, ◌&&◌, none, some, [],
  ◌∷◌, ◌==◌, arith, update, inl, inr, Bool-cases, ==_iff, some-injective,
}
use xasmos.Exfs.Volume.{ExfsFile, CharArray}
use xasmos.Exfs.Names.{NodeName, same_from, find_from, put_name}

-- No byte of the name is the terminator.
unfoldable pub IsText : NodeName → Type 0
IsText [] = Unit
IsText (c ∷ s) = (0 < c) × IsText s

-- The array holds the name from index `i` on, with its terminator.
unfoldable pub Spells : CharArray → ℕ → NodeName → Type 0
Spells a i [] = a i ≡ 0
Spells a i (c ∷ s) = (a i ≡ c) × Spells a (i + 1) s

pub same_from-Spells :
    (s : NodeName) (a : CharArray) (i : ℕ) → IsText s → same_from a i s ≡ true → Spells a i s
unfolding same_from Spells IsText
same_from-Spells [] a i t e = ground arith
same_from-Spells (c ∷ s) a i t e = elim (Bool-cases (a i == c)) [
  | inl q ↦ (ground arith, same_from-Spells s a (i + 1) t.1 (ground arith))
  | inr q ↦ absurd (ground arith)
]

pub Spells-same_from :
    (s : NodeName) (a : CharArray) (i : ℕ) → IsText s → Spells a i s → same_from a i s ≡ true
unfolding same_from Spells IsText
Spells-same_from [] a i t h = ground arith
Spells-same_from (c ∷ s) a i t h = ground (arith, Spells-same_from s a (i + 1) t.1 h.1)

pub Spells-unique :
    (s t : NodeName) (a : CharArray) (i : ℕ)
    → IsText s
    → IsText t
    → Spells a i s
    → Spells a i t
    → s ≡ t
unfolding Spells IsText
Spells-unique [] [] a i x y h k = refl
Spells-unique [] (c ∷ t) a i x y h k = absurd (omega arith)
Spells-unique (c ∷ s) [] a i x y h k = absurd (omega arith)
Spells-unique (c ∷ s) (d ∷ t) a i x y h k =
    ap₂ ◌∷◌ (sym h.0 ∙ k.0) (Spells-unique s t a (i + 1) x.1 y.1 h.1 k.1)

put_name-below : (s : NodeName) (k j : ℕ) (a : CharArray) → j < k → put_name s k a j ≡ a j
unfolding put_name
put_name-below [] k j a p = ground arith
put_name-below (c ∷ s) k j a p =
    ground (arith, put_name-below s (k + 1) j (update a k c) (omega arith))

pub put_name-Spells : (s : NodeName) (k : ℕ) (a : CharArray) → Spells (put_name s k a) k s
unfolding put_name Spells
put_name-Spells [] k a = ground arith
put_name-Spells (c ∷ s) k a = (
  ground (arith, put_name-below s (k + 1) k (update a k c) (omega arith)),
  put_name-Spells s (k + 1) (update a k c),
)

-- Whether `find` stops at the file.
abbrev pub hit : NodeName → ExfsFile → Bool
hit s f = f.used && same_from f.name 0 s

pub find_from-some :
    (n i j : ℕ) (s : NodeName) (files : ℕ → ExfsFile)
    → find_from n i s files ≡ some j
    → (i ≤ j) × (j < i + n) × (hit s (files j) ≡ true)
unfolding find_from
find_from-some zero i j s files e = absurd (cc)
find_from-some (suc n) i j s files e = elim (Bool-cases (hit s (files i))) [
  | inl q ↦
      let same : i ≡ j = some-injective (ground arith) in (omega arith, omega arith, rw (← same) q)
  | inr q ↦
      let h = find_from-some n (i + 1) j s files (ground arith) in (omega arith, omega arith, h.2)
]

pub find_from-none :
    (n i j : ℕ) (s : NodeName) (files : ℕ → ExfsFile)
    → find_from n i s files ≡ none
    → i ≤ j
    → j < i + n
    → hit s (files j) ≡ false
unfolding find_from
find_from-none zero i j s files e p q = absurd (omega arith)
find_from-none (suc n) i j s files e p q = elim (Bool-cases (hit s (files i))) [
  | inl h ↦ absurd (ground arith)
  | inr h ↦ elim (Bool-cases (i == j)) [
    | inl same ↦ let same' : i ≡ j = (==_iff i j).0 same in rw same' at h
    | inr apart ↦ find_from-none n (i + 1) j s files (ground arith) (ground arith) (omega arith)
  ]
]

pub find_from-cong :
    (n i : ℕ) (s t : NodeName) (f g : ℕ → ExfsFile)
    → ((j : ℕ) → hit t (g j) ≡ hit s (f j))
    → find_from n i t g ≡ find_from n i s f
unfolding find_from
find_from-cong zero i s t f g h = refl
find_from-cong (suc n) i s t f g h = ground (arith, h i, find_from-cong n (i + 1) s t f g h)
