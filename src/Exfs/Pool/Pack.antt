-- ===== src/Exfs/Pool/Pack.antt =====
-- source/core/exfs/exfs.c: `pool_compact` moves the slices together and keeps what they hold.
use xasmos.Base.{
  sum_below, sum_below-next, ℕ, zero, suc, ◌+◌, ◌-◌, ◌≤◌, ◌<◌, ◌≡◌, ◌≢◌, ◌⊎◌, refl, ap, ◌∙◌, true,
  false, ◌&&◌, ltb, leb, ◌==◌, if◌then◌else◌, arith, update, inl, inr, Bool-cases, if_both, ==_iff,
}
use xasmos.Exfs.Superblock.{inodes}
use xasmos.Exfs.Volume.{ExfsFile, ExfsExtent, Nodes, pool_ext}
use xasmos.Exfs.Pool.{pool_is_used, pool_mark, copy_slice, place_slice}
use xasmos.Exfs.Pool.Slots.{is_used-pool_mark}
use xasmos.Exfs.Pool.Sort.{is_live, Ordered}

-- Slices lie inside the pool, have room for their lists, and do not overlap.
pub record PoolFits (files : ℕ → ExfsFile) : Type 0 where
  pub inside :
      (i : ℕ)
      → i < inodes
      → is_live files i ≡ true
      → (files i).ext_off + (files i).ext_cap ≤ pool_ext
  pub room : (i : ℕ) → i < inodes → is_live files i ≡ true → (files i).n ≤ (files i).ext_cap
  pub apart :
      (i j : ℕ)
      → i < inodes
      → j < inodes
      → is_live files i ≡ true
      → is_live files j ≡ true
      → i ≢ j
      → ((files i).ext_off + (files i).ext_cap ≤ (files j).ext_off)
        ⊎ ((files j).ext_off + (files j).ext_cap ≤ (files i).ext_off)

copy_slice-cell :
    (n k cursor off j : ℕ) (pool : ℕ → ExfsExtent)
    → cursor ≤ off
    → copy_slice n k cursor off pool j
      ≡ (if leb (cursor + k) j && ltb j (cursor + k + n) then pool (off + (j - cursor)) else pool j)
unfolding copy_slice
copy_slice-cell zero k cursor off j pool p = ground arith
copy_slice-cell (suc n) k cursor off j pool p =
    let rest =
      copy_slice-cell n (k + 1) cursor off j (update pool (cursor + k) (pool (off + k))) p in
    elim (Bool-cases (j == cursor + k)) [
      | inl e ↦
          let back : off + (j - cursor) ≡ off + k = ground arith in
          ground (arith, rest, ap pool back)
      | inr e ↦ ground (arith, rest)
    ]

-- The volume after one slice is moved to `cursor`.
pub record Placed (i cursor : ℕ) (t p : Nodes) : Type 0 where
  pub off : (p.files i).ext_off ≡ cursor
  pub cap : (p.files i).ext_cap ≡ (t.files i).ext_cap
  pub n : (p.files i).n ≡ (t.files i).n
  pub used : (p.files i).used ≡ (t.files i).used
  pub others : (j : ℕ) → (j == i) ≡ false → p.files j ≡ t.files j
  pub pool :
      (j : ℕ)
      → p.pool j ≡ (
          if leb cursor j && ltb j (cursor + (t.files i).n)
          then t.pool ((t.files i).ext_off + (j - cursor))
          else t.pool j)
  pub bits : p.pool_used ≡ t.pool_used

pub place_slice-Placed :
    (i cursor : ℕ) (t : Nodes)
    → cursor ≤ (t.files i).ext_off
    → Placed i cursor t (place_slice i cursor t)
unfolding copy_slice
place_slice-Placed i cursor t h =
    if_both (Placed i cursor t) ((t.files i).ext_off == cursor) _ _
      (λ e. record {
        off = ground arith;
        cap = refl;
        n = refl;
        used = refl;
        others = λ j q. refl;
        pool = λ j. elim (Bool-cases (leb cursor j)) [
          | inl q ↦
              let same : (t.files i).ext_off + (j - cursor) ≡ j = ground arith in
              ground (arith, ap t.pool same)
          | inr q ↦ ground arith
        ];
        bits = refl;
      })
      (λ e.
        let self : (i == i) ≡ true = ground arith in
        record {
          off = rw self refl;
          cap = rw self refl;
          n = rw self refl;
          used = rw self refl;
          others = λ j q. rw q refl;
          pool = λ j.
              let z : cursor + 0 ≡ cursor = omega arith in
              rw z at (copy_slice-cell (t.files i).n 0 cursor (t.files i).ext_off j t.pool h);
          bits = refl;
        })

module _ (s : Nodes) (fits : PoolFits s.files) (m : ℕ) (order : ℕ → ℕ)
    (ord : Ordered s.files m order) where
  abbrev pub at : ℕ → ExfsFile
  at x = s.files (order x)

  -- A slice ends before the next one in the order begins.
  before : (x y : ℕ) → x < y → y < m → (at x).ext_off + (at x).ext_cap ≤ (at y).ext_off
  before x y p q =
      let lx = ord.lists.live x (omega arith) in
      let ly = ord.lists.live y q in
      let distinct = ord.lists.distinct x y (omega arith) q in
      elim (fits.apart (order x) (order y) lx.0 ly.0 lx.1 ly.1
        (λ e. let same = distinct e in absurd (omega arith))) [
          | inl h ↦ h
          | inr h ↦ absurd (ground (arith, ord.sorted x y p q, ly.1))
        ]

  -- The capacities in the order of the slices: packed without gaps, a slice begins at the sum of those
  -- before it.
  abbrev pub caps : ℕ → ℕ
  caps x = (at x).ext_cap

  -- The first `a` slices are packed below the cursor; the others are where they were.
  pub record Packed (a : ℕ) (c : ℕ × Nodes) : Type 0 where
    pub bound : c.0 ≤ pool_ext
    pub cap : (i : ℕ) → (c.1.files i).ext_cap ≡ (s.files i).ext_cap
    pub n : (i : ℕ) → (c.1.files i).n ≡ (s.files i).n
    pub used : (i : ℕ) → (c.1.files i).used ≡ (s.files i).used
    pub gap : (x : ℕ) → a ≤ x → x < m → c.0 ≤ (at x).ext_off
    pub still : (x : ℕ) → a ≤ x → x < m → (c.1.files (order x)).ext_off ≡ (at x).ext_off
    pub kept :
        (x k : ℕ)
        → a ≤ x
        → x < m
        → k < (at x).ext_cap
        → c.1.pool ((at x).ext_off + k) ≡ s.pool ((at x).ext_off + k)
    pub low : (x : ℕ) → x < a → (c.1.files (order x)).ext_off + (at x).ext_cap ≤ c.0
    pub apart :
        (x y : ℕ)
        → x < y
        → y < a
        → (c.1.files (order x)).ext_off + (at x).ext_cap ≤ (c.1.files (order y)).ext_off
    pub cursor : c.0 ≡ sum_below a caps
    pub place : (x : ℕ) → x < a → (c.1.files (order x)).ext_off ≡ sum_below x caps
    pub list :
        (x k : ℕ)
        → x < a
        → k < (at x).n
        → c.1.pool ((c.1.files (order x)).ext_off + k) ≡ s.pool ((at x).ext_off + k)
    pub bits : (j : ℕ) → j < pool_ext → pool_is_used c.1.pool_used j ≡ ltb j c.0

  module _ (a : ℕ) (q : a < m) (c : ℕ × Nodes) (h : Packed a c) (placed : Nodes)
      (facts : Placed (order a) c.0 c.1 placed) where
    live : (order a < inodes) × (is_live s.files (order a) ≡ true)
    live = ord.lists.live a q

    end_inside : (at a).ext_off + (at a).ext_cap ≤ pool_ext
    end_inside = fits.inside (order a) live.0 live.1

    short : (at a).n ≤ (at a).ext_cap
    short = fits.room (order a) live.0 live.1

    gap_here : c.0 ≤ (at a).ext_off
    gap_here = h.gap a (omega arith) q

    other : (x : ℕ) → x < m → x ≢ a → (order x == order a) ≡ false
    other x p n = ground (arith, ord.lists.distinct x a p q)

    -- A cell that the copy does not write.
    outside : (j : ℕ) → (j < c.0) ⊎ (c.0 + (at a).n ≤ j) → placed.pool j ≡ c.1.pool j
    outside j (inl p) = ground (arith, facts.pool j)
    outside j (inr p) = ground (arith, facts.pool j, h.n (order a))

    -- A cell of the moved list.
    moved : (k : ℕ) → k < (at a).n → placed.pool (c.0 + k) ≡ s.pool ((at a).ext_off + k)
    moved k p =
        let from : (c.1.files (order a)).ext_off + (c.0 + k - c.0) ≡ (at a).ext_off + k =
          omega (arith, h.still a (omega arith) q) in
        let cell : placed.pool (c.0 + k)
            ≡ c.1.pool ((c.1.files (order a)).ext_off + (c.0 + k - c.0)) =
          ground (arith, facts.pool (c.0 + k), h.n (order a)) in
        cell ∙ ap c.1.pool from ∙ h.kept a k (omega arith) q (omega (arith, short))

    next_sum : sum_below (a + 1) caps ≡ sum_below a caps + (at a).ext_cap
    next_sum = sum_below-next a caps

    new_cap : (placed.files (order a)).ext_cap ≡ (at a).ext_cap
    new_cap = facts.cap ∙ h.cap (order a)

    -- Slice `a` stands at the cursor, and the others as before.
    off_other :
        (x : ℕ) → x < m → x ≢ a → (placed.files (order x)).ext_off ≡ (c.1.files (order x)).ext_off
    off_other x p n = ap (λ (f : ExfsFile). f.ext_off) (facts.others (order x) (other x p n))

    field :
        (g : ExfsFile → ℕ) (i : ℕ)
        → g (placed.files (order a)) ≡ g (c.1.files (order a))
        → g (placed.files i) ≡ g (c.1.files i)
    field g i e = elim (Bool-cases (i == order a)) [
      | inl p ↦ let same : i ≡ order a = (==_iff i (order a)).0 p in rw same e
      | inr p ↦ ap g (facts.others i p)
    ]

    flag : (i : ℕ) → (placed.files i).used ≡ (c.1.files i).used
    flag i = elim (Bool-cases (i == order a)) [
      | inl p ↦ let same : i ≡ order a = (==_iff i (order a)).0 p in rw same facts.used
      | inr p ↦ ap (λ (f : ExfsFile). f.used) (facts.others i p)
    ]

    pub Packed-next :
        (z : ℕ)
        → z ≡ c.0 + (at a).ext_cap
        → Packed (a + 1) (
          z,
          record placed {
            pool_used =
                pool_mark
                  (placed.files (order a)).ext_off
                  (placed.files (order a)).ext_cap
                  true
                  placed.pool_used;
          },
        )
    Packed-next z e = record {
      bound = omega (arith, end_inside, gap_here);
      cap = λ i. field (λ (f : ExfsFile). f.ext_cap) i facts.cap ∙ h.cap i;
      n = λ i. field (λ (f : ExfsFile). f.n) i facts.n ∙ h.n i;
      used = λ i. flag i ∙ h.used i;
      gap = λ x p r. omega (arith, before a x (omega arith) r, gap_here);
      still = λ x p r. off_other x r (λ s. absurd (omega arith)) ∙ h.still x (omega arith) r;
      kept = λ x k p r w.
          outside ((at x).ext_off + k)
            (inr (omega (arith, before a x (omega arith) r, gap_here, short)))
          ∙ h.kept x k (omega arith) r w;
      low = λ x p. elim (Bool-cases (x == a)) [
        | inl t ↦ let same : x ≡ a = (==_iff x a).0 t in rw same (omega (arith, facts.off))
        | inr t ↦
            omega (
              arith,
              off_other x (ground arith) (λ s. absurd (ground arith)),
              h.low x (ground arith),
            )
      ];
      apart = λ x y p r. elim (Bool-cases (y == a)) [
        | inl t ↦
            let same : y ≡ a = (==_iff y a).0 t in
            rw same (
              omega (
                arith,
                facts.off,
                off_other x (omega arith) (λ s. absurd (omega arith)),
                h.low x (omega arith),
              ))
        | inr t ↦ omega (
          arith,
          off_other x (ground arith) (λ s. absurd (ground arith)),
          off_other y (ground arith) (λ s. absurd (ground arith)),
          h.apart x y p (ground arith),
        )
      ];
      cursor = rw next_sum (omega (arith, e, h.cursor));
      place = λ x p. elim (Bool-cases (x == a)) [
        | inl t ↦ let same : x ≡ a = (==_iff x a).0 t in rw same (facts.off ∙ h.cursor)
        | inr t ↦ off_other x (ground arith) (λ s. absurd (ground arith)) ∙ h.place x (ground arith)
      ];
      list = λ x k p r. elim (Bool-cases (x == a)) [
        | inl t ↦
            let same : x ≡ a = (==_iff x a).0 t in rw same (rw facts.off (moved k (rw same at r)))
        | inr t ↦
            let lx = ord.lists.live x (ground arith) in
            let fit = fits.room (order x) lx.0 lx.1 in
            let where_was = off_other x (ground arith) (λ s. absurd (ground arith)) in
            rw where_was (
              outside ((c.1.files (order x)).ext_off + k)
                (inl (omega (arith, h.low x (ground arith), fit)))
              ∙ h.list x k (ground arith) r)
      ];
      bits = λ j p.
          let marked =
            is_used-pool_mark (placed.files (order a)).ext_cap (placed.files (order a)).ext_off j
              true placed.pool_used in
          let old : pool_is_used placed.pool_used j ≡ ltb j c.0 = rw facts.bits (h.bits j p) in
          ground (arith, marked, old, new_cap, facts.off);
    }
