-- ===== src/Exfs/Names/Prune.antt =====
-- source/core/exfs/exfs.c: what `exfs_delete` does to the names.
use xasmos.Base.{
  ℕ, zero, suc, ◌+◌, ◌≤◌, ◌<◌, ◌≡◌, ◌≢◌, refl, ap, ◌∙◌, true, false, ◌∷◌, ◌++◌, ltb, leb, ◌==◌,
  add32, arith, update, for_up, for_up_inv, inl, inr, Bool-cases, if_both, ==_iff,
}
use xasmos.Exfs.Superblock.{inodes}
use xasmos.Exfs.Volume.{ExfsStatus, exfs_ok, enomem, ExfsFile, Nodes, type_dir, defer_max}
use xasmos.Exfs.Pool.{pool_release}
use xasmos.Exfs.Inodes.{defer_push, defer_extent, defer_chain, defer_file}
use xasmos.Exfs.Names.{NodeName, is_child, children_from, has_children}
use xasmos.Exfs.Names.Spells.{IsText, Spells-unique}
use xasmos.Exfs.Names.Stat.{Holds}
use xasmos.Exfs.Names.Tree.{HasParent, IsTree, IsText-append, Spells-prefix}

pub defer_push-files : (a b : ℕ) (s : Nodes) → (defer_push a b s).1.files ≡ s.files
unfolding defer_push
defer_push-files a b s =
    if_both (λ (r : ExfsStatus × Nodes). r.1.files ≡ s.files) (leb defer_max s.ndefer) _ _
      (λ _. refl) (λ _. refl)

-- A file without blocks.
abbrev pub emptied : ExfsFile → ExfsFile
emptied f = record f { ext_off = 0; ext_cap = 0; n = 0; nchain = 0 }

-- `defer_file` empties the file and leaves the others alone, or does nothing.
pub data FileDeferred (i : ℕ) (s : Nodes) : ExfsStatus × Nodes → Type 0 where
  done :
      {s' : Nodes}
      → s'.files ≡ update s.files i (emptied (s.files i))
      → FileDeferred i s (exfs_ok, s')
  full : FileDeferred i s (enomem, s)

pushed-files : (n : ℕ) (f : ExfsFile) (s : Nodes) → (for_up n 0 (defer_extent f) s).files ≡ s.files
pushed-files n f s =
    for_up_inv (λ _ t. t.files ≡ s.files) (defer_extent f) n 0 n
      (λ k t p q h. defer_push-files _ _ t ∙ h) s (omega arith) refl

pub chained-files :
    (n : ℕ) (f : ExfsFile) (s : Nodes) → (for_up n 0 (defer_chain f) s).files ≡ s.files
chained-files n f s =
    for_up_inv (λ _ t. t.files ≡ s.files) (defer_chain f) n 0 n
      (λ k t p q h. defer_push-files _ _ t ∙ h) s (omega arith) refl

pub defer_file-FileDeferred : (i : ℕ) (s : Nodes) → FileDeferred i s (defer_file i s)
unfolding defer_file pool_release
defer_file-FileDeferred i s =
    let f = s.files i in
    let runs = for_up f.n 0 (defer_extent f) s in
    let kept : (for_up f.nchain 0 (defer_chain f) runs).files ≡ s.files =
      chained-files f.nchain f runs ∙ pushed-files f.n f s in
    if_both (FileDeferred i s) (ltb defer_max (add32 s.ndefer (add32 f.n f.nchain))) _ _ (λ _. full)
      (λ _. done (ap (λ (g : ℕ → ExfsFile). update g i (emptied f)) kept))

children_from-false :
    (n i j : ℕ) (dir : NodeName) (files : ℕ → ExfsFile)
    → children_from n i dir files ≡ false
    → i ≤ j
    → j < i + n
    → is_child dir (files j) ≡ false
unfolding children_from
children_from-false zero i j dir files e p q = absurd (omega arith)
children_from-false (suc n) i j dir files e p q = elim (Bool-cases (is_child dir (files i))) [
  | inl h ↦ absurd (ground arith)
  | inr h ↦ elim (Bool-cases (i == j)) [
    | inl same ↦ let same' : i ≡ j = (==_iff i j).0 same in rw same' at h
    | inr apart ↦
        children_from-false n (i + 1) j dir files (ground arith) (ground arith) (omega arith)
  ]
]

module _ (s : NodeName) (i : ℕ) (files g : ℕ → ExfsFile) (x : IsText s) (tree : IsTree files)
    (held : Holds files i s) (rest : (j : ℕ) → (j == i) ≡ false → g j ≡ files j)
    (gone : (g i).used ≡ false) where
  Holds-rest : (j : ℕ) (t : NodeName) → j ≢ i → Holds files j t → Holds g j t
  unfolding Holds
  Holds-rest j t n h = rw (rest j (ground arith)) h

  Holds-back : (j : ℕ) (t : NodeName) → Holds g j t → (j ≢ i) × Holds files j t
  unfolding Holds
  Holds-back j t h = elim (Bool-cases (j == i)) [
    | inl e ↦ let seen : (g i).used ≡ true = rw ((==_iff j i).0 e) at (h.1) in absurd (cc)
    | inr e ↦ ((λ same. absurd (ground arith)), rw (rest j e) at h)
  ]

  -- A node below a directory is found by `has_children`.
  child_found :
      (j : ℕ) (leaf : NodeName)
      → Holds files j (s ++ (b'|' ∷ leaf))
      → has_children s files ≡ false
      → ⊥
  unfolding has_children Holds
  child_found j leaf h none_found =
      let below = Spells-prefix s leaf b'|' 0 (files j).name h.2 in
      let missed =
        children_from-false inodes 0 j s files none_found (omega arith) (omega (arith, h.0)) in
      absurd (ground (arith, h.1, below.0, below.1, missed))

  module _ (leafless : (files i).type ≡ type_dir → has_children s files ≡ false) where
    HasParent-rest :
        (j : ℕ) (t : NodeName) → IsText t → Holds files j t → HasParent files t → HasParent g t
    unfolding Holds
    HasParent-rest j t y h p = record {
      path = p.path;
      leaf = p.leaf;
      split = p.split;
      simple = p.simple;
      found = elim (p.found) [
        | inl root ↦ inl root
        | inr (k, at, dir) ↦ elim (Bool-cases (k == i)) [
          | inl e ↦
              let same : k ≡ i = (==_iff k i).0 e in
              let z = IsText-append p.path (b'|' ∷ p.leaf) (rw p.split at y) in
              let named : p.path ≡ s = same_name p.path z (rw same at at) in
              let child : Holds files j (s ++ (b'|' ∷ p.leaf)) = rw (p.split, named) at h in
              absurd (child_found j p.leaf child (leafless (rw same at dir)))
          | inr e ↦
              inr (k, Holds-rest k p.path (λ same. absurd (ground arith)) at, rw (rest k e) dir)
        ]
      ];
    }
      where
        same_name : (t : NodeName) → IsText t → Holds files i t → t ≡ s
        same_name t y h = Spells-unique t s (files i).name 0 y x h.2 held.2

    pub IsTree-rest : IsTree g
    IsTree-rest = record {
      spelled = λ j p u. elim (Bool-cases (j == i)) [
        | inl e ↦ absurd (ground (arith, rw ((==_iff j i).0 e) at u, gone))
        | inr e ↦
            let (t, y, h) = tree.spelled j p (rw (rest j e) at u) in
            (t, y, Holds-rest j t (λ same. absurd (ground arith)) h)
      ];
      unique = λ j k t y h h'. tree.unique j k t y (Holds-back j t h).1 (Holds-back k t h').1;
      named = λ j t y h. tree.named j t y (Holds-back j t h).1;
      rooted = λ j t y h.
          let old = (Holds-back j t h).1 in HasParent-rest j t y old (tree.rooted j t y old);
    }
