-- ===== src/Exfs/Pool/Sort.antt =====
-- source/core/exfs/exfs.c: the order in which `pool_compact` packs the files.
use xasmos.Base.{
  ℕ, zero, suc, ◌+◌, ◌-◌, ◌≤◌, ◌<◌, ◌≡◌, ◌⊎◌, refl, sym, ap, ◌∙◌, Bool, true, false, ◌&&◌, ltb, leb,
  ◌==◌, if◌then◌else◌, arith, update, for_up_inv, inl, inr, Bool-cases, if_both, ==_iff,
}
use xasmos.Exfs.Superblock.{inodes}
use xasmos.Exfs.Volume.{ExfsFile}
use xasmos.Exfs.Pool.{collect, sift, insert_at, sort_order}

module _ (files : ℕ → ExfsFile) where
  abbrev pub key : ℕ → ℕ
  key i = (files i).ext_off

  abbrev pub is_live : ℕ → Bool
  is_live i = (files i).used && ltb 0 (files i).ext_cap

  -- The array after the inner loop has stopped at `b`.
  record Sifted (a x b : ℕ) (order shifted : ℕ → ℕ) : Type 0 where
    inside : b ≤ a
    cell : (j : ℕ) → shifted j ≡ (if ltb b j && leb j a then order (j - 1) else order j)
    above : (j : ℕ) → b ≤ j → j < a → key x < key (order j)
    below : (j : ℕ) → j + 1 ≡ b → key (order j) ≤ key x

  sift-Sifted :
      (a x : ℕ) (order : ℕ → ℕ) → Sifted a x (sift a x files order).0 order (sift a x files order).1
  unfolding sift
  sift-Sifted zero x order = record {
    inside = omega arith;
    cell = λ j. ground arith;
    above = λ j p q. absurd (omega arith);
    below = λ j p. absurd (omega arith);
  }
  sift-Sifted (suc a) x order = elim (Bool-cases (ltb (key x) (key (order a)))) [
    | inl e ↦
        let u = update order (suc a) (order a) in
        let r = sift a x files u in rw e (shift (sift-Sifted a x u) e)
    | inr e ↦ rw e (record {
      inside = omega arith;
      cell = λ j. ground arith;
      above = λ j p q. absurd (omega arith);
      below = λ j p. let same : j ≡ a = omega arith in rw same (ground arith);
    })
  ]
    where
      shift :
          {b : ℕ} {shifted : ℕ → ℕ}
          → Sifted a x b (update order (suc a) (order a)) shifted
          → ltb (key x) (key (order a)) ≡ true
          → Sifted (suc a) x b order shifted
      shift {b = b} {shifted = shifted} h e = record {
        inside = omega (arith, h.inside);
        cell = λ j. elim (Bool-cases (j == suc a)) [
          | inl q ↦
              let back : j - 1 ≡ a = ground arith in
              ground (arith, h.cell j, h.inside, ap order back)
          | inr q ↦ ground (arith, h.cell j, h.inside)
        ];
        above = λ j p q. elim (Bool-cases (j == a)) [
          | inl s ↦ let same : j ≡ a = (==_iff j a).0 s in rw same (ground arith)
          | inr s ↦
              let n : (j == suc a) ≡ false = ground arith in rw n at (h.above j p (ground arith))
        ];
        below =
            λ j p. let n : (j == suc a) ≡ false = ground (arith, h.inside) in rw n at (h.below j p);
      }

  -- The first `m` entries are distinct live inodes, with every live inode below `top` among them.
  pub record Lists (m top : ℕ) (order : ℕ → ℕ) : Type 0 where
    pub live : (x : ℕ) → x < m → (order x < top) × (is_live (order x) ≡ true)
    pub distinct : (x y : ℕ) → x < m → y < m → order x ≡ order y → x ≡ y
    pub all : (i : ℕ) → i < top → is_live i ≡ true → (x : ℕ) × (x < m) × (order x ≡ i)

  -- The first `a` entries are in the order of their slices.
  unfoldable pub IsSorted : ℕ → (ℕ → ℕ) → Type 0
  IsSorted a order = (x y : ℕ) → x < y → y < a → key (order x) ≤ key (order y)

  -- Where the entry at `j` came from, and where it went, when entry `a` moved to `b`.
  abbrev from : ℕ → ℕ → ℕ → ℕ
  from a b j = if j == b then a else if ltb b j && leb j a then j - 1 else j

  abbrev moved_to : ℕ → ℕ → ℕ → ℕ
  moved_to a b j = if j == a then b else if leb b j && ltb j a then j + 1 else j

  module _ (a b : ℕ) (order shifted : ℕ → ℕ) (h : Sifted a (order a) b order shifted) where
    abbrev after : ℕ → ℕ
    after = update shifted b (order a)

    after-from : (j : ℕ) → after j ≡ order (from a b j)
    after-from j = elim (Bool-cases (j == b)) [
      | inl e ↦ rw e refl
      | inr e ↦ elim (Bool-cases (ltb b j && leb j a)) [
        | inl q ↦ let c = rw q at (h.cell j) in rw (e, q) c
        | inr q ↦ let c = rw q at (h.cell j) in rw (e, q) c
      ]
    ]

    Lists-after : (m top : ℕ) → a < m → Lists m top order → Lists m top after
    Lists-after m top p l = record {
      live = λ x q. rw (after-from x) (l.live (from a b x) (ground (arith, h.inside)));
      distinct = λ x y q r e.
          let e' : order (from a b x) ≡ order (from a b y) =
            sym (after-from x) ∙ e ∙ after-from y in
          let same =
            l.distinct (from a b x) (from a b y) (ground (arith, h.inside))
              (ground (arith, h.inside)) e' in
          ground (arith, same, h.inside);
      all = λ i q live.
          let (x, inside, at) = l.all i q live in
          let back : from a b (moved_to a b x) ≡ x = ground (arith, h.inside) in
          (
            moved_to a b x,
            ground (arith, h.inside),
            after-from (moved_to a b x) ∙ ap order back ∙ at,
          );
    }

    IsSorted-after : IsSorted a order → IsSorted (a + 1) after
    unfolding IsSorted
    IsSorted-after s x y p q =
        rw (after-from x, after-from y) (go (Bool-cases (ltb x b)) (Bool-cases (ltb y b)))
      where
        go :
            ((ltb x b ≡ true) ⊎ (ltb x b ≡ false))
            → ((ltb y b ≡ true) ⊎ (ltb y b ≡ false))
            → key (order (from a b x)) ≤ key (order (from a b y))
        go (inl e) (inl f) =
            let ex : from a b x ≡ x = ground arith in
            let ey : from a b y ≡ y = ground arith in
            rw (ex, ey) (s x y p (ground (arith, h.inside)))
        go (inl e) (inr f) =
            let ex : from a b x ≡ x = ground arith in
            elim (Bool-cases (y == b)) [
              | inl g ↦
                  let ey : from a b y ≡ a = ground arith in
                  rw (ex, ey)
                    (elim (Bool-cases (x + 1 == b)) [
                      | inl near ↦ h.below x (ground arith)
                      | inr far ↦ omega (
                        arith,
                        s x (b - 1) (ground arith) (ground (arith, h.inside)),
                        h.below (b - 1) (ground arith),
                      )
                    ])
              | inr g ↦
                  let ey : from a b y ≡ y - 1 = ground arith in
                  rw (ex, ey) (s x (y - 1) (ground arith) (ground arith))
            ]
        go (inr e) (inl f) = absurd (ground arith)
        go (inr e) (inr f) =
            let ey : from a b y ≡ y - 1 = ground arith in
            elim (Bool-cases (x == b)) [
              | inl g ↦
                  let ex : from a b x ≡ a = ground arith in
                  rw (ex, ey) (omega (arith, h.above (y - 1) (ground arith) (ground arith)))
              | inr g ↦
                  let ex : from a b x ≡ x - 1 = ground arith in
                  rw (ex, ey) (s (x - 1) (y - 1) (ground arith) (ground arith))
            ]

  -- The array when the sort is done: the live inodes, in the order of their slices.
  pub record Ordered (m : ℕ) (order : ℕ → ℕ) : Type 0 where
    pub lists : Lists m inodes order
    pub sorted : (x y : ℕ) → x < y → y < m → key (order x) ≤ key (order y)

  sort_order-Ordered :
      (m : ℕ) (order : ℕ → ℕ) → Lists m inodes order → Ordered m (sort_order m files order)
  unfolding sort_order insert_at IsSorted
  sort_order-Ordered m order l =
      let done =
        for_up_inv (λ a o. IsSorted a o × Lists m inodes o) (λ a o. insert_at a files o) (m - 1) 1
          (1 + (m - 1))
          (λ a o p q h.
            let r = sift a (o a) files o in
            let s = sift-Sifted a (o a) o in
            (
              IsSorted-after a r.0 o r.1 s h.0,
              Lists-after a r.0 o r.1 s m inodes (omega arith) h.1,
            ))
          order refl ((λ x y p q. absurd (omega arith)), l) in
      record { lists = done.1; sorted = λ x y p q. done.0 x y p (omega arith) }

  Lists-extend :
      (m i : ℕ) (order : ℕ → ℕ)
      → is_live i ≡ true
      → Lists m i order
      → Lists (m + 1) (i + 1) (update order m i)
  Lists-extend m i order live l = record {
    live = λ x p. elim (Bool-cases (x == m)) [
      | inl e ↦ rw e (omega arith, live)
      | inr e ↦ let old = l.live x (ground arith) in rw e (omega (arith, old.0), old.1)
    ];
    distinct = λ x y p q e. elim (Bool-cases (x == m)) [
      | inl s ↦ elim (Bool-cases (y == m)) [
        | inl t ↦ ground arith
        | inr t ↦ absurd (ground (arith, rw (s, t) at e, l.live y (ground arith)))
      ]
      | inr s ↦ elim (Bool-cases (y == m)) [
        | inl t ↦ absurd (ground (arith, rw (s, t) at e, l.live x (ground arith)))
        | inr t ↦ l.distinct x y (ground arith) (ground arith) (rw (s, t) at e)
      ]
    ];
    all = λ k p q. elim (Bool-cases (k == i)) [
      | inl s ↦
          let self : (m == m) ≡ true = ground arith in
          let same : i ≡ k = ground arith in (m, omega arith, rw self same)
      | inr s ↦
          let (x, inside, at) = l.all k (ground arith) q in
          let other : (x == m) ≡ false = ground arith in (x, omega arith, rw other at)
    ];
  }

  collect-Lists :
      (n i j : ℕ) (o : (ℕ → ℕ) × ℕ)
      → i + n ≡ j
      → Lists o.1 i o.0
      → let r = collect n i files o in Lists r.1 j r.0
  unfolding collect
  collect-Lists zero i j o e l = let same : i ≡ j = omega arith in rw (← same) l
  collect-Lists (suc n) i j o e l = collect-Lists n (i + 1) j _ (omega arith) (
      if_both (λ (r : (ℕ → ℕ) × ℕ). Lists r.1 (i + 1) r.0) (is_live i) (update o.0 o.1 i, o.1 + 1) o
        (λ live. Lists-extend o.1 i o.0 live l)
        (λ dead. record {
          live = λ x p. (omega (arith, (l.live x p).0), (l.live x p).1);
          distinct = l.distinct;
          all = λ k p q. elim (Bool-cases (k == i)) [
            | inl s ↦ let same : k ≡ i = (==_iff k i).0 s in let q' = rw same at q in absurd (cc)
            | inr s ↦ l.all k (ground arith) q
          ];
        }))

  -- What `pool_compact` packs, whatever the array held before.
  pub order-Ordered :
      (junk : ℕ → ℕ)
      → let o = collect inodes 0 files (junk, 0) in Ordered o.1 (sort_order o.1 files o.0)
  order-Ordered junk =
      let o = collect inodes 0 files (junk, 0) in
      sort_order-Ordered o.1 o.0 (
        collect-Lists inodes 0 inodes (junk, 0) refl
          (record {
            live = λ x p. absurd (omega arith);
            distinct = λ x y p. absurd (omega arith);
            all = λ i p. absurd (omega arith);
          }))
