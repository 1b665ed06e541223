-- ===== src/Exfs/Pool/Compact.antt =====
-- source/core/exfs/exfs.c: the outcome of `pool_compact`.
use mathlib.Core.Path.{subst}
use xasmos.Base.{
  ◌⊎◌, sum_below, sum_below-none, ℕ, zero, suc, ◌+◌, ◌/◌, ◌≤◌, ◌<◌, ◌≡◌, refl, sym, ap, ◌∙◌, true,
  false, ltb, ◌==◌, arith, inl, inr, Bool-cases, ==_iff,
}
use xasmos.Bitmap.{test, test-zero}
use xasmos.Exfs.Superblock.{inodes}
use xasmos.Exfs.Volume.{Nodes, pool_ext, fext}
use xasmos.Exfs.Pool.{
  pool_is_used, collect, sort_order, place_slice, pack, pack_from, clear_pool, pool_compact,
}
use xasmos.Exfs.Pool.Sort.{is_live, Ordered, order-Ordered}
use xasmos.Exfs.Pool.Pack.{PoolFits, caps, place_slice-Placed, Packed, Packed-next}

-- Position `e` of the pool is its start, or the end of a slice of a live file.
abbrev pub EndsAt : Nodes → Nodes → ℕ → Type 0
EndsAt s t e =
    (e ≡ 0)
    ⊎ ((i : ℕ) × (i < inodes)
        × (is_live s.files i ≡ true)
        × ((t.files i).ext_off + (t.files i).ext_cap ≡ e))

-- After compaction the slices still fit, every list holds what it held, each slice begins where
-- another ends or at the start, and the free slots are those behind the last slice.
pub record Compacted (s t : Nodes) : Type 0 where
  pub cap : (i : ℕ) → (t.files i).ext_cap ≡ (s.files i).ext_cap
  pub n : (i : ℕ) → (t.files i).n ≡ (s.files i).n
  pub used : (i : ℕ) → (t.files i).used ≡ (s.files i).used
  pub fits : PoolFits t.files
  pub list :
      (i k : ℕ)
      → i < inodes
      → is_live s.files i ≡ true
      → k < (s.files i).n
      → fext t (t.files i) k ≡ fext s (s.files i) k
  pub end : ℕ
  pub below :
      (i : ℕ)
      → i < inodes
      → is_live s.files i ≡ true
      → (t.files i).ext_off + (t.files i).ext_cap ≤ end
  pub dense : (i : ℕ) → i < inodes → is_live s.files i ≡ true → EndsAt s t (t.files i).ext_off
  pub tight : EndsAt s t end
  pub bits : (j : ℕ) → j < pool_ext → pool_is_used t.pool_used j ≡ ltb j end

cleared : (s : Nodes) (j : ℕ) → j < pool_ext → pool_is_used (clear_pool s).pool_used j ≡ false
unfolding pool_is_used test
cleared s j p = let low : ltb (j / 8) 2048 ≡ true = ground arith in rw low (test-zero j)

module _ (s : Nodes) (fits : PoolFits s.files) (m : ℕ) (order : ℕ → ℕ)
    (ord : Ordered s.files m order) where
  Packed-start : Packed s fits m order ord 0 (0, clear_pool s)
  Packed-start = record {
    bound = omega arith;
    cap = λ i. refl;
    n = λ i. refl;
    used = λ i. refl;
    gap = λ x p q. omega arith;
    still = λ x p q. refl;
    kept = λ x k p q r. refl;
    low = λ x p. absurd (omega arith);
    apart = λ x y p q. absurd (omega arith);
    cursor = sym (sum_below-none (caps s fits m order ord));
    place = λ x p. absurd (omega arith);
    list = λ x k p. absurd (omega arith);
    bits = λ j p. ground (arith, cleared s j p);
  }

  Packed-step :
      (a : ℕ) (c : ℕ × Nodes)
      → a < m
      → Packed s fits m order ord a c
      → Packed s fits m order ord (a + 1) (pack (order a) c)
  unfolding pack
  Packed-step a c q h =
      let i = order a in
      let l = ord.lists.live a q in
      let far = fits.inside i l.0 l.1 in
      let gap = h.gap a (omega arith) q in
      let facts = place_slice-Placed i c.0 c.1 (omega (arith, gap, h.still a (omega arith) q)) in
      Packed-next s fits m order ord a q c h (place_slice i c.0 c.1) facts _
        (omega (arith, facts.cap, h.cap i, far, gap))

  pack_from-Packed :
      (n a : ℕ) (c : ℕ × Nodes)
      → a + n ≡ m
      → Packed s fits m order ord a c
      → Packed s fits m order ord m (pack_from n a order c)
  unfolding pack_from
  pack_from-Packed zero a c e h = let same : a ≡ m = omega arith in rw same at h
  pack_from-Packed (suc n) a c e h =
      pack_from-Packed n (a + 1) (pack (order a) c) (omega arith) (Packed-step a c (omega arith) h)

  module _ (c : ℕ × Nodes) (h : Packed s fits m order ord m c) where
    -- Below the cursor, each slice; in a file's own words.
    low_at : (x i : ℕ) → x < m → order x ≡ i → (c.1.files i).ext_off + (s.files i).ext_cap ≤ c.0
    low_at x i q e =
        subst (λ (z : ℕ). (c.1.files z).ext_off + (s.files z).ext_cap ≤ c.0) e (h.low x q)

    apart_at :
        (x y i j : ℕ)
        → x < y
        → y < m
        → order x ≡ i
        → order y ≡ j
        → (c.1.files i).ext_off + (s.files i).ext_cap ≤ (c.1.files j).ext_off
    apart_at x y i j p q e f =
        subst (λ (z : ℕ). (c.1.files z).ext_off + (s.files z).ext_cap ≤ (c.1.files j).ext_off) e
          (subst
            (λ (z : ℕ).
              (c.1.files (order x)).ext_off + (s.files (order x)).ext_cap ≤ (c.1.files z).ext_off)
            f (h.apart x y p q))

    list_at :
        (x i k : ℕ)
        → x < m
        → order x ≡ i
        → k < (s.files i).n
        → c.1.pool ((c.1.files i).ext_off + k) ≡ s.pool ((s.files i).ext_off + k)
    list_at x i k q e =
        subst
          (λ (z : ℕ).
            k < (s.files z).n
            → c.1.pool ((c.1.files z).ext_off + k) ≡ s.pool ((s.files z).ext_off + k))
          e (h.list x k q)

    live_before : (i : ℕ) → is_live c.1.files i ≡ true → is_live s.files i ≡ true
    live_before i l = ground (arith, h.cap i, h.used i)

    fits_after : PoolFits c.1.files
    fits_after = record {
      inside = λ i p l.
          let (x, q, e) = ord.lists.all i p (live_before i l) in
          omega (arith, low_at x i q e, h.bound, h.cap i);
      room = λ i p l. omega (arith, fits.room i p (live_before i l), h.cap i, h.n i);
      apart = λ i j p q l k n.
          let (x, a, e) = ord.lists.all i p (live_before i l) in
          let (y, b, f) = ord.lists.all j q (live_before j k) in
          elim (Bool-cases (ltb x y)) [
            | inl less ↦ inl (omega (arith, apart_at x y i j (ground arith) b e f, h.cap i))
            | inr more ↦ elim (Bool-cases (x == y)) [
              | inl t ↦
                  let same : x ≡ y = (==_iff x y).0 t in absurd (n (sym e ∙ ap order same ∙ f))
              | inr t ↦ inr (omega (arith, apart_at y x j i (ground arith) a f e, h.cap j))
            ]
          ];
    }

    ends_at : (y : ℕ) → y ≤ m → EndsAt s c.1 (sum_below y (caps s fits m order ord))
    unfolding sum_below
    ends_at zero q = inl (sum_below-none (caps s fits m order ord))
    ends_at (suc x) q =
        let l = ord.lists.live x (omega arith) in
        inr (order x, l.0, l.1, omega (arith, h.place x (omega arith), h.cap (order x)))

    Compacted-packed : Compacted s c.1
    Compacted-packed = record {
      cap = h.cap;
      n = h.n;
      used = h.used;
      fits = fits_after;
      list = λ i k p l r. let (x, q, e) = ord.lists.all i p l in list_at x i k q e r;
      end = c.0;
      below =
          λ i p l. let (x, q, e) = ord.lists.all i p l in omega (arith, low_at x i q e, h.cap i);
      dense = λ i p l.
          let (x, q, e) = ord.lists.all i p l in
          let off : (c.1.files i).ext_off ≡ sum_below x (caps s fits m order ord) =
            subst (λ (z : ℕ). (c.1.files z).ext_off ≡ sum_below x (caps s fits m order ord)) e
              (h.place x q) in
          rw off (ends_at x (omega arith));
      tight = rw h.cursor (ends_at m (omega arith));
      bits = h.bits;
    }

-- For slices that lie inside the pool without overlap and have room for their lists, and whatever the
-- array `order` held: `pool_compact` keeps the length, capacity and contents of every file's list, the
-- slices fit again without a gap (each begins at the start of the pool or at the end of another), and
-- the free slots of the pool are those behind the end of the last slice, or all if there is none.
pub pool_compact-Compacted :
    (junk : ℕ → ℕ) (s : Nodes) → PoolFits s.files → Compacted s (pool_compact junk s)
unfolding pool_compact
pool_compact-Compacted junk s fits =
    let o = collect inodes 0 s.files (junk, 0) in
    let order = sort_order o.1 s.files o.0 in
    let ord = order-Ordered s.files junk in
    Compacted-packed s fits o.1 order ord (pack_from o.1 0 order (0, clear_pool s)) (
      pack_from-Packed s fits o.1 order ord o.1 0 (0, clear_pool s) (omega arith)
        (Packed-start s fits o.1 order ord))
