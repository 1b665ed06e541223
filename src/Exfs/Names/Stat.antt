-- ===== src/Exfs/Names/Stat.antt =====
-- source/core/exfs/exfs.c: what `exfs_stat` finds after a node is made. `Holds` is a used inode with
-- the name.
use xasmos.Base.{
  ℕ, zero, suc, ◌+◌, ◌≤◌, ◌<◌, ◌≡◌, ◌≢◌, ◌↔◌, refl, true, false, Option, none, some, ◌==◌, arith,
  update, inl, inr, Bool-cases, ==_iff, some-injective,
}
use xasmos.Exfs.Superblock.{inodes}
use xasmos.Exfs.Volume.{ExfsFile}
use xasmos.Exfs.Names.{
  NodeName, is_some, find, find_from, free_node, new_node, put_name, is_some, stat_at, amount,
}
use xasmos.Exfs.Names.Spells.{
  IsText, Spells, same_from-Spells, Spells-same_from, Spells-unique, put_name-Spells, hit,
  find_from-some, find_from-none, find_from-cong,
}

-- Inode `i` is used and has the name.
unfoldable pub Holds : (ℕ → ExfsFile) → ℕ → NodeName → Type 0
Holds files i s = (i < inodes) × ((files i).used ≡ true) × Spells (files i).name 0 s

pub find-Holds :
    (s : NodeName) (files : ℕ → ExfsFile) (i : ℕ)
    → IsText s
    → find s files ≡ some i
    → Holds files i s
unfolding find Holds
find-Holds s files i t e =
    let h = find_from-some inodes 0 i s files e in
    (omega arith, ground (arith, h.2), same_from-Spells s (files i).name 0 t (ground (arith, h.2)))

pub Holds-hit :
    (s : NodeName) (files : ℕ → ExfsFile) (i : ℕ)
    → IsText s
    → Holds files i s
    → hit s (files i) ≡ true
unfolding Holds
Holds-hit s files i t h = ground (arith, h.1, Spells-same_from s (files i).name 0 t h.2)

pub find-none :
    (s : NodeName) (files : ℕ → ExfsFile) (i : ℕ)
    → IsText s
    → find s files ≡ none
    → Holds files i s
    → ⊥
unfolding find Holds
find-none s files i t e h =
    let seen = Holds-hit s files i t h in
    let missed = find_from-none inodes 0 i s files e (omega arith) (omega (arith, h.0)) in
    absurd (ground (arith, seen, missed))

pub free_node-some :
    (n i j : ℕ) (files : ℕ → ExfsFile)
    → free_node n i files ≡ some j
    → (i ≤ j) × (j < i + n) × ((files j).used ≡ false)
unfolding free_node
free_node-some zero i j files e = absurd (cc)
free_node-some (suc n) i j files e = elim (Bool-cases (files i).used) [
  | inl q ↦
      let h = free_node-some n (i + 1) j files (ground arith) in (omega arith, omega arith, h.2)
  | inr q ↦
      let same : i ≡ j = some-injective (ground arith) in (omega arith, omega arith, rw (← same) q)
]

pub is_some-none : (o : Option ℕ) → is_some o ≡ false → o ≡ none
is_some-none none e = refl
is_some-none (some i) e = absurd (cc)

-- Only the new inode has the new name, and it has no other.
hit-new :
    (s t : NodeName) (type : ℕ) (f : ExfsFile)
    → IsText s
    → IsText t
    → (hit t (new_node s type f) ≡ true) ↔ (t ≡ s)
unfolding new_node
hit-new s t type f x y = (
  λ e.
      let h = same_from-Spells t (put_name s 0 f.name) 0 y (ground arith) in
      Spells-unique t s (put_name s 0 f.name) 0 y x h (put_name-Spells s 0 f.name),
  λ e.
      let h = Spells-same_from s (put_name s 0 f.name) 0 x (put_name-Spells s 0 f.name) in
      rw e (ground (arith, h)),
)

module _ (s : NodeName) (type i : ℕ) (files : ℕ → ExfsFile) (x : IsText s) (inside : i < inodes)
    (unused : (files i).used ≡ false) where
  -- The table with the new node.
  abbrev pub made : ℕ → ExfsFile
  made = update files i (new_node s type (files i))

  hit-other : (t : NodeName) → IsText t → t ≢ s → (j : ℕ) → hit t (made j) ≡ hit t (files j)
  hit-other t y apart j = elim (Bool-cases (j == i)) [
    | inl e ↦
        let same : j ≡ i = (==_iff j i).0 e in
        elim (Bool-cases (hit t (new_node s type (files i)))) [
          | inl h ↦ absurd (apart ((hit-new s t type (files i) x y).0 h))
          | inr h ↦ rw (e, h) (rw same (ground (arith, unused)))
        ]
    | inr e ↦ rw e refl
  ]

  -- Every other name keeps its answer, and the new one has the type.
  pub stat-made :
      (t : NodeName) → IsText t → t ≢ s → stat_at (find t made) made ≡ stat_at (find t files) files
  unfolding find
  stat-made t y apart =
      rw (find_from-cong inodes 0 t t files made (hit-other t y apart))
        (go (find_from inodes 0 t files) refl)
    where
      go : (o : Option ℕ) → find_from inodes 0 t files ≡ o → stat_at o made ≡ stat_at o files
      go none e = refl
      go (some j) e =
          let h = find_from-some inodes 0 j t files e in
          elim (Bool-cases (j == i)) [
            | inl q ↦
                let same : j ≡ i = (==_iff j i).0 q in
                let seen : hit t (files i) ≡ true = rw same at (h.2) in
                absurd (ground (arith, seen, unused))
            | inr q ↦ rw q refl
          ]

  pub stat-new : find s files ≡ none → stat_at (find s made) made ≡ amount type
  unfolding find new_node
  stat-new fresh = go (find_from inodes 0 s made) refl
    where
      seen : hit s (made i) ≡ true
      seen = ground (arith, (hit-new s s type (files i) x x).1 refl)

      go : (o : Option ℕ) → find_from inodes 0 s made ≡ o → stat_at o made ≡ amount type
      go none e =
          let missed = find_from-none inodes 0 i s made e (omega arith) (omega arith) in
          absurd (ground (arith, seen, missed))
      go (some j) e =
          let h = find_from-some inodes 0 j s made e in
          elim (Bool-cases (j == i)) [
            | inl q ↦ rw q refl
            | inr q ↦
                let old : hit s (files j) ≡ true = rw q at (h.2) in
                let missed = find_from-none inodes 0 j s files fresh (omega arith) (omega arith) in
                absurd (ground (arith, old, missed))
          ]
