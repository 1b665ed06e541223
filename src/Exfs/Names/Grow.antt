-- ===== src/Exfs/Names/Grow.antt =====
-- source/core/exfs/exfs.c: a new node keeps the tree.
use xasmos.Base.{
  ℕ, ◌<◌, ◌≡◌, ◌≢◌, ◌⊎◌, refl, sym, ◌∙◌, true, false, not, Option, none, some, ◌==◌, arith, update,
  inl, inr, Bool-cases, if_both, ==_iff,
}
use xasmos.Exfs.Superblock.{inodes}
use xasmos.Exfs.Volume.{ExfsStatus, ExfsFile, Nodes, Volume}
use xasmos.Exfs.Names.{
  NodeName, find, free_node, new_node, put_name, make_in, make_node, name_ok, parent_ok, add_node,
  is_some,
}
use xasmos.Exfs.Names.Spells.{IsText, Spells-unique, put_name-Spells}
use xasmos.Exfs.Names.Stat.{Holds, is_some-none, free_node-some, find-none}
use xasmos.Exfs.Names.Tree.{HasParent, IsTree, parent_ok-HasParent}

module _ (s : NodeName) (type i : ℕ) (files : ℕ → ExfsFile) (x : IsText s) (inside : i < inodes)
    (unused : (files i).used ≡ false) (tree : IsTree files) (fresh : find s files ≡ none)
    (shape : name_ok s ≡ true) (parent : HasParent files s) where
  abbrev pub grown : ℕ → ExfsFile
  grown = update files i (new_node s type (files i))

  Holds-new : Holds grown i s
  unfolding Holds new_node
  Holds-new = (inside, ground arith, ground (arith, put_name-Spells s 0 (files i).name))

  Holds-old : (j : ℕ) (t : NodeName) → Holds files j t → (j ≢ i) × Holds grown j t
  unfolding Holds
  Holds-old j t h = elim (Bool-cases (j == i)) [
    | inl e ↦
        let same : j ≡ i = (==_iff j i).0 e in
        let seen : (files i).used ≡ true = rw same at (h.1) in absurd (ground (arith, seen, unused))
    | inr e ↦ ((λ same. absurd (ground arith)), rw e h)
  ]

  Holds-grown :
      (j : ℕ) (t : NodeName)
      → IsText t
      → Holds grown j t
      → ((j ≡ i) × (t ≡ s)) ⊎ ((j ≢ i) × Holds files j t)
  unfolding Holds new_node
  Holds-grown j t y h = elim (Bool-cases (j == i)) [
    | inl e ↦
        let a = put_name s 0 (files i).name in
        let spelled = rw e at (h.2) in
        inl
          ((==_iff j i).0 e, Spells-unique t s a 0 y x spelled (put_name-Spells s 0 (files i).name))
    | inr e ↦ inr ((λ same. absurd (ground arith)), rw e at h)
  ]

  HasParent-grown : (t : NodeName) → HasParent files t → HasParent grown t
  unfolding new_node
  HasParent-grown t p = record {
    path = p.path;
    leaf = p.leaf;
    split = p.split;
    simple = p.simple;
    found = elim (p.found) [
      | inl root ↦ inl root
      | inr (k, h, dir) ↦
          let old = Holds-old k p.path h in inr (k, old.1, ground (arith, old.0, dir))
    ];
  }

  IsTree-grown : IsTree grown
  unfolding new_node Holds
  IsTree-grown = record {
    spelled = λ j p u. elim (Bool-cases (j == i)) [
      | inl e ↦ rw ((==_iff j i).0 e) (s, x, Holds-new)
      | inr e ↦ let (t, y, h) = tree.spelled j p (rw e at u) in (t, y, (Holds-old j t h).1)
    ];
    unique = λ j k t y h h'. elim (Holds-grown j t y h) [
      | inl (e, q) ↦ elim (Holds-grown k t y h') [
        | inl (e', q') ↦ e ∙ sym e'
        | inr (n, old) ↦ absurd (find-none s files k x fresh (rw q at old))
      ]
      | inr (n, old) ↦ elim (Holds-grown k t y h') [
        | inl (e', q') ↦ absurd (find-none s files j x fresh (rw q' at old))
        | inr (n', old') ↦ tree.unique j k t y old old'
      ]
    ];
    named = λ j t y h. elim (Holds-grown j t y h) [
      | inl (e, q) ↦ rw q shape
      | inr (n, old) ↦ tree.named j t y old
    ];
    rooted = λ j t y h. elim (Holds-grown j t y h) [
      | inl (e, q) ↦ rw q (HasParent-grown s parent)
      | inr (n, old) ↦ HasParent-grown t (tree.rooted j t y old)
    ];
  }

pub make_in-IsTree :
    (o : Option ℕ) (s : NodeName) (type : ℕ) (t : Nodes)
    → IsText s
    → IsTree t.files
    → free_node inodes 0 t.files ≡ o
    → name_ok s ≡ true
    → find s t.files ≡ none
    → parent_ok s t.files ≡ true
    → IsTree (make_in o s type t).1.files
unfolding make_in
make_in-IsTree none s type t x tree e named fresh parent = tree
make_in-IsTree (some i) s type t x tree e named fresh parent =
    let h = free_node-some inodes 0 i t.files e in
    IsTree-grown s type i t.files x (omega arith) h.2 tree fresh named
      (parent_ok-HasParent s t.files x parent)

pub add_node-IsTree {ℓ} :
    {D : Type ℓ} (s : NodeName) (type : ℕ) (v : Volume D)
    → IsText s
    → IsTree v.nodes.files
    → IsTree (add_node s type v).1.nodes.files
unfolding add_node make_node
add_node-IsTree {D} s type v x tree =
    let P = λ (r : ExfsStatus × Volume D). IsTree r.1.nodes.files in
    if_both P (not v.mounted) _ _ (λ _. tree)
      λ _.
        if_both P v.broken _ _ (λ _. tree)
          λ _.
            if_both P (not (name_ok s)) _ _ (λ _. tree)
              λ named.
                if_both P (is_some (find s v.nodes.files)) _ _ (λ _. tree)
                  λ fresh.
                    if_both P (not (parent_ok s v.nodes.files)) _ _ (λ _. tree)
                      λ parent.
                        make_in-IsTree (free_node inodes 0 v.nodes.files) s type v.nodes x tree refl
                          (ground arith) (is_some-none _ fresh) (ground arith)
