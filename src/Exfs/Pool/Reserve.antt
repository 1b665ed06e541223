-- ===== src/Exfs/Pool/Reserve.antt =====
-- source/core/exfs/exfs.c: the outcome of `pool_reserve`.
use xasmos.Base.{
  ℕ, ◌+◌, ◌^◌, ◌≤◌, ◌<◌, ◌≡◌, ◌⊎◌, refl, true, Option, none, some, ◌==◌, arith, inl, inr, if_both,
}
use xasmos.Exfs.Volume.{Nodes, pool_ext}
use xasmos.Exfs.Pool.{
  Slice, pool_min_cap, pool_mark, pool_find, pool_compact, reserve_at, reserve_in, reserve_cap,
  pool_reserve,
}
use xasmos.Exfs.Pool.Slots.{Capacity, slice_cap_for-Capacity, AreFree, pool_find_exact}

-- A slice of free slots is marked, in the pool as it was or as compaction left it; or no run of the
-- capacity is free even after compaction.
pub data Reserved (junk : ℕ → ℕ) (n : ℕ) (s : Nodes) : Option Slice × Nodes → Type 0 where
  placed :
      {off cap : ℕ} (t : Nodes)
      → Capacity pool_min_cap n cap
      → (t ≡ s) ⊎ (t ≡ pool_compact junk s)
      → off + cap ≤ pool_ext
      → AreFree off cap t.pool_used
      → Reserved junk n s (
        some (record { off = off; cap = cap }),
        record t { pool_used = pool_mark off cap true t.pool_used },
      )
  no_room :
      (cap : ℕ)
      → Capacity pool_min_cap n cap
      → ((o : ℕ) → o + cap ≤ pool_ext → AreFree o cap (pool_compact junk s).pool_used → ⊥)
      → Reserved junk n s (none, pool_compact junk s)

reserve_found :
    (junk : ℕ → ℕ) (n cap : ℕ) (s t : Nodes) (o : Option ℕ)
    → 0 < cap
    → Capacity pool_min_cap n cap
    → (t ≡ s) ⊎ (t ≡ pool_compact junk s)
    → pool_find cap t.pool_used ≡ o
    → (o ≡ none → t ≡ pool_compact junk s)
    → Reserved junk n s (reserve_at cap o t)
reserve_found junk n cap s t (some off) p fits which e last =
    let found = (pool_find_exact cap t.pool_used p).0 off e in placed t fits which found.0 found.1
reserve_found junk n cap s t none p fits which e last = rw (last refl) (
    no_room cap fits (λ o q h.
      let h' : AreFree o cap t.pool_used = rw (last refl) h in
      let some_run = (pool_find_exact cap t.pool_used p).1 o q h' in absurd (cc)))

reserve_in-Reserved :
    (junk : ℕ → ℕ) (n cap : ℕ) (s : Nodes) (o : Option ℕ)
    → 0 < cap
    → Capacity pool_min_cap n cap
    → pool_find cap s.pool_used ≡ o
    → Reserved junk n s (reserve_in junk cap o s)
unfolding reserve_in
reserve_in-Reserved junk n cap s (some off) p fits e =
    reserve_found junk n cap s s (some off) p fits (inl refl) e (λ q. absurd (cc))
reserve_in-Reserved junk n cap s none p fits e =
    let t = pool_compact junk s in
    reserve_found junk n cap s t (pool_find cap t.pool_used) p fits (inr refl) refl (λ _. refl)

-- For a list of `n` extents, from 1 to 2^31: a slice that `pool_reserve` gives lies inside the pool, has
-- room for the list with a capacity that is 8 doubled and less than `2 n` unless it is 8, and its slots,
-- free before, are marked. It fails only if even after compaction the pool has no run of free slots of
-- that capacity.
pub pool_reserve-Reserved :
    (junk : ℕ → ℕ) (n : ℕ) (s : Nodes)
    → 0 < n
    → n ≤ 2 ^ 31
    → Reserved junk n s (pool_reserve junk n s)
unfolding pool_reserve reserve_cap
pool_reserve-Reserved junk n s p q =
    let (cap, at, fits) = slice_cap_for-Capacity n q in
    let big : 0 < cap = omega (arith, fits.enough) in
    if_both (λ (r : Option Slice × Nodes). Reserved junk n s r) (n == 0) _ _
      (λ e. absurd (ground arith))
      (λ _.
        rw (at, reserve_cap)
          (reserve_in-Reserved junk n cap s (pool_find cap s.pool_used) big fits refl))
