-- ===== src/Exfs/Names/Tree.antt =====
-- source/core/exfs/exfs.c: the names of the used inodes as a tree.
use xasmos.Base.{
  ℕ, zero, suc, ◌+◌, ◌<◌, ◌≡◌, ◌≢◌, ◌⊎◌, refl, ap, true, Option, none, some, [], ◌∷◌, ◌++◌, ◌==◌,
  if◌then◌else◌, arith, inl, inr, Bool-cases, ==_iff, some-injective,
}
use xasmos.Exfs.Superblock.{inodes}
use xasmos.Exfs.Volume.{ExfsFile, CharArray, type_dir}
use xasmos.Exfs.Names.{
  NodeName, length, take, find, name_ok, last_bar, is_dir, parent_at, parent_ok, prefix_from,
}
use xasmos.Exfs.Names.Spells.{IsText, Spells}
use xasmos.Exfs.Names.Stat.{Holds, find-Holds}

unfoldable pub NoBar : NodeName → Type 0
NoBar [] = Unit
NoBar (c ∷ s) = (c ≢ b'|') × NoBar s

-- The name is that of a directory, or nothing, with one component added.
pub record HasParent (files : ℕ → ExfsFile) (s : NodeName) : Type 0 where
  pub path : NodeName
  pub leaf : NodeName
  pub split : s ≡ path ++ (b'|' ∷ leaf)
  pub simple : NoBar leaf
  pub found : (path ≡ []) ⊎ ((k : ℕ) × Holds files k path × ((files k).type ≡ type_dir))

-- Every used inode has a name, no two have the same, each name is well formed, and its parent is the
-- root or a directory of the volume.
pub record IsTree (files : ℕ → ExfsFile) : Type 0 where
  pub spelled :
      (i : ℕ) → i < inodes → (files i).used ≡ true → (s : NodeName) × IsText s × Holds files i s
  pub unique : (i j : ℕ) (s : NodeName) → IsText s → Holds files i s → Holds files j s → i ≡ j
  pub named : (i : ℕ) (s : NodeName) → IsText s → Holds files i s → name_ok s ≡ true
  pub rooted : (i : ℕ) (s : NodeName) → IsText s → Holds files i s → HasParent files s

pub IsText-take : (k : ℕ) (s : NodeName) → IsText s → IsText (take k s)
unfolding IsText
IsText-take zero s x = tt
IsText-take (suc k) [] x = tt
IsText-take (suc k) (c ∷ s) x = (x.0, IsText-take k s x.1)

pub IsText-append : (p r : NodeName) → IsText (p ++ r) → IsText p
unfolding IsText
IsText-append [] r x = tt
IsText-append (c ∷ p) r x = (x.0, IsText-append p r x.1)

-- Where the last bar stands: nowhere in `s`, or at `m`.
data LastBar (i k : ℕ) (last : Option ℕ) (s : NodeName) : Type 0 where
  before : last ≡ some k → NoBar s → LastBar i k last s
  inside :
      (m : ℕ) (r : NodeName) → k ≡ i + m → s ≡ take m s ++ (b'|' ∷ r) → NoBar r → LastBar i k last s

last_bar-LastBar :
    (i k : ℕ) (last : Option ℕ) (s : NodeName) → last_bar i last s ≡ some k → LastBar i k last s
unfolding last_bar NoBar
last_bar-LastBar i k last [] e = before e tt
last_bar-LastBar i k last (c ∷ s) e =
    go (last_bar-LastBar (i + 1) k (if c == b'|' then some i else last) s e)
  where
    go : LastBar (i + 1) k (if c == b'|' then some i else last) s → LastBar i k last (c ∷ s)
    go (inside m r at cut plain) = inside (suc m) r (omega arith) (ap (◌∷◌ c) cut) plain
    go (before at plain) = elim (Bool-cases (c == b'|')) [
      | inl q ↦
          let here : i ≡ k = some-injective (rw q at at) in
          let bar : c ≡ b'|' = (==_iff c b'|').0 q in
          inside 0 s (omega arith) (ap (λ (x : ℕ). x ∷ s) bar) plain
      | inr q ↦ before (rw q at at) ((λ bar. absurd (ground arith)), plain)
    ]

found_at :
    (k : ℕ) (s : NodeName) (files : ℕ → ExfsFile)
    → IsText s
    → parent_at (some k) s files ≡ true
    → (take k s ≡ []) ⊎ ((j : ℕ) × Holds files j (take k s) × ((files j).type ≡ type_dir))
unfolding parent_at
found_at zero s files x e = inl refl
found_at (suc k) s files x e = inr (go (find (take (suc k) s) files) refl (ground (arith, e)))
  where
    go :
        (o : Option ℕ)
        → find (take (suc k) s) files ≡ o
        → is_dir o files ≡ true
        → (j : ℕ) × Holds files j (take (suc k) s) × ((files j).type ≡ type_dir)
    go none at h = absurd (cc)
    go (some j) at h =
        (j, find-Holds (take (suc k) s) files j (IsText-take (suc k) s x) at, ground (arith, h))

pub parent_ok-HasParent :
    (s : NodeName) (files : ℕ → ExfsFile) → IsText s → parent_ok s files ≡ true → HasParent files s
unfolding parent_ok parent_at
parent_ok-HasParent s files x e = go (last_bar 0 none s) refl e
  where
    cut : (k : ℕ) → LastBar 0 k none s → parent_at (some k) s files ≡ true → HasParent files s
    cut k (before at plain) h = absurd (cc)
    cut k (inside m r at split plain) h =
        let same : m ≡ k = omega arith in
        record {
          path = take k s;
          leaf = r;
          split = rw same at split;
          simple = plain;
          found = found_at k s files x h;
        }

    go : (o : Option ℕ) → last_bar 0 none s ≡ o → parent_at o s files ≡ true → HasParent files s
    go none at h = absurd (cc)
    go (some k) at h = cut k (last_bar-LastBar 0 k none s at) h

pub Spells-prefix :
    (s r : NodeName) (c k : ℕ) (a : CharArray)
    → Spells a k (s ++ (c ∷ r))
    → (prefix_from a k s ≡ true) × (a (k + length s) ≡ c)
unfolding Spells prefix_from
Spells-prefix [] r c k a h = (refl, ground (arith, h.0))
Spells-prefix (d ∷ s) r c k a h =
    let t = Spells-prefix s r c (k + 1) a h.1 in
    let e : k + 1 + length s ≡ k + suc (length s) = omega arith in
    (ground (arith, h.0, t.0), rw e at t.1)
