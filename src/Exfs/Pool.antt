-- ===== src/Exfs/Pool.antt =====
-- source/core/exfs/exfs.c: the pool that the extent lists of all files share.
pub mod Slots
pub mod Reserve
pub mod Sort
pub mod Pack
pub mod Compact
use xasmos.Base.{
  ℕ, zero, suc, ◌+◌, ◌-◌, ◌*◌, ◌/◌, ◌%◌, ◌^◌, Bool, true, false, not, ◌&&◌, Option, none, some, ltb,
  ◌==◌, if◌then◌else◌, update, for_up,
}
use xasmos.Bitmap.{Bits, test, mark, clear}
use xasmos.Exfs.Superblock.{inodes}
use xasmos.Exfs.Volume.{ExfsFile, ExfsExtent, Nodes, pool_ext, set_file, fext}

abbrev pub pool_min_cap : ℕ
pool_min_cap = 8

unfoldable pub pool_is_used : Bits → ℕ → Bool
pool_is_used used i = test used i

unfoldable pub pool_mark : ℕ → ℕ → Bool → Bits → Bits
pool_mark off zero on used = used
pool_mark off (suc cap) on used =
    pool_mark (off + 1) cap on (if on then mark used off else clear used off)

-- The loop of `pool_find`: rounds left, index, and the length of the free run before it.
unfoldable pub pool_find_from : ℕ → ℕ → ℕ → ℕ → Bits → Option ℕ
pool_find_from zero i run cap used = none
pool_find_from (suc n) i run cap used =
    let restart = pool_find_from n (i + 1) 0 cap used in
    let rest = pool_find_from n (i + 1) (run + 1) cap used in
    if pool_is_used used i then restart else if run + 1 == cap then some (i + 1 - cap) else rest

unfoldable pub pool_find : ℕ → Bits → Option ℕ
pool_find cap used = pool_find_from pool_ext 0 0 cap used

-- The first loop of `pool_compact`: `order` and `cnt`.
unfoldable pub collect : ℕ → ℕ → (ℕ → ExfsFile) → (ℕ → ℕ) × ℕ → (ℕ → ℕ) × ℕ
collect zero i files o = o
collect (suc n) i files (order, cnt) = collect n (i + 1) files (
    if (files i).used && ltb 0 (files i).ext_cap
    then (update order cnt i, cnt + 1)
    else (order, cnt))

-- while (b > 0 && files[order[b - 1]].ext_off > files[x].ext_off): `b` and `order`
unfoldable pub sift : ℕ → ℕ → (ℕ → ExfsFile) → (ℕ → ℕ) → ℕ × (ℕ → ℕ)
sift zero x files order = (zero, order)
sift (suc b) x files order =
    let rest = sift b x files (update order (suc b) (order b)) in
    if ltb (files x).ext_off (files (order b)).ext_off then rest else (suc b, order)

-- The body of the sorting loop.
unfoldable pub insert_at : ℕ → (ℕ → ExfsFile) → (ℕ → ℕ) → (ℕ → ℕ)
insert_at a files order =
    let x = order a in let (b, shifted) = sift a x files order in update shifted b x

unfoldable pub sort_order : ℕ → (ℕ → ExfsFile) → (ℕ → ℕ) → (ℕ → ℕ)
sort_order cnt files order = for_up (cnt - 1) 1 (λ a o. insert_at a files o) order

-- The forward copy of one slice to `cursor`.
unfoldable pub copy_slice : ℕ → ℕ → ℕ → ℕ → (ℕ → ExfsExtent) → (ℕ → ExfsExtent)
copy_slice zero k cursor off pool = pool
copy_slice (suc n) k cursor off pool =
    copy_slice n (k + 1) cursor off (update pool (cursor + k) (pool (off + k)))

abbrev pub place_slice : ℕ → ℕ → Nodes → Nodes
place_slice i cursor s =
    let f = s.files i in
    if f.ext_off == cursor
    then s
    else (set_file i (record f { ext_off = cursor })
        (record s { pool = copy_slice f.n 0 cursor f.ext_off s.pool }))

-- The body of the packing loop; `cursor` comes first.
unfoldable pub pack : ℕ → ℕ × Nodes → ℕ × Nodes
pack i (cursor, s) =
    let s' = place_slice i cursor s in
    let f = s'.files i in
    (
      (cursor + f.ext_cap) % 2 ^ 32,
      record s' { pool_used = pool_mark f.ext_off f.ext_cap true s'.pool_used },
    )

-- The packing loop, over the files in `order` from `a` on.
unfoldable pub pack_from : ℕ → ℕ → (ℕ → ℕ) → ℕ × Nodes → ℕ × Nodes
pack_from zero a order c = c
pack_from (suc n) a order c = pack_from n (a + 1) order (pack (order a) c)

abbrev pub clear_pool : Nodes → Nodes
clear_pool s = record s { pool_used = λ i. if ltb i (pool_ext / 8) then 0 else s.pool_used i }

-- The array `order` starts undefined: its cells are a parameter.
unfoldable pub pool_compact : (ℕ → ℕ) → Nodes → Nodes
pool_compact junk s =
    let (order, cnt) = collect inodes 0 s.files (junk, 0) in
    (pack_from cnt 0 (sort_order cnt s.files order) (0, clear_pool s)).1

-- while (c < n) c <<= 1, with a bound on its rounds
unfoldable pub double_cap : ℕ → ℕ → ℕ → Option ℕ
double_cap zero c n = if ltb c n then none else some c
double_cap (suc fuel) c n =
    let rest = double_cap fuel (c * 2 % 2 ^ 32) n in if ltb c n then rest else some c

unfoldable pub slice_cap_for : ℕ → Option ℕ
slice_cap_for n = double_cap 28 pool_min_cap n

-- A slice of the pool: its offset and capacity.
pub record Slice : Type 0 where
  pub off : ℕ
  pub cap : ℕ

abbrev pub reserve_at : ℕ → Option ℕ → Nodes → Option Slice × Nodes
reserve_at cap none s = (none, s)
reserve_at cap (some off) s = (
  some (record { off = off; cap = cap }),
  record s { pool_used = pool_mark off cap true s.pool_used },
)

-- The part after the first search.
unfoldable pub reserve_in : (ℕ → ℕ) → ℕ → Option ℕ → Nodes → Option Slice × Nodes
reserve_in junk cap (some off) s = reserve_at cap (some off) s
reserve_in junk cap none s =
    let s' = pool_compact junk s in reserve_at cap (pool_find cap s'.pool_used) s'

unfoldable pub reserve_cap : (ℕ → ℕ) → Option ℕ → Nodes → Option Slice × Nodes
reserve_cap junk none s = (none, s)
reserve_cap junk (some cap) s = reserve_in junk cap (pool_find cap s.pool_used) s

-- `none` is EXFS_ENOMEM. A list of more than 2^31 extents, for which no capacity is found, does not
-- occur: callers pass at most EXFS_MAX_EXT.
unfoldable pub pool_reserve : (ℕ → ℕ) → ℕ → Nodes → Option Slice × Nodes
pool_reserve junk n s =
    let found = reserve_cap junk (slice_cap_for n) s in
    if n == 0 then (some (record { off = 0; cap = 0 }), s) else found

unfoldable pub pool_release : ℕ → ℕ → Nodes → Nodes
pool_release off cap s = record s { pool_used = pool_mark off cap false s.pool_used }
