-- ===== src/Exfs/GroupOps.antt =====
-- source/core/exfs/gmap.c: the cache of group bitmaps, and the operations of the map through it.
use xasmos.Base.{
  ℕ, zero, suc, ◌+◌, ◌-◌, ◌*◌, ◌/◌, ◌%◌, ◌^◌, ◌≤◌, ◌<◌, ◌≡◌, arith, Bool, true, false, not, ◌&&◌,
  ◌||◌, Option, none, some, ltb, leb, ◌==◌, if◌then◌else◌, add32, add64, bit_and, update, for_up,
}
use xasmos.Block.Device.{BlkDev, blk_sector_size}
use xasmos.Exfs.Format.{block_size}
use xasmos.Exfs.GroupMap.{
  GMap, GMapEntry, GmapStatus, done, io_error, no_space, not_used, cache_size, max_groups,
  group_min, group_max, valid_bits, bit_of, bit_put, gread, other_slot, flush_one, drop_cache,
  gmap_import,
}

-- `none` is GMAP_EIO. What `m` held before shows only in the contents of the cache.
unfoldable pub gmap_init {ℓ} :
    {D : Type ℓ} → Option (BlkDev D) → ℕ → ℕ → (ℕ → GMapEntry) → Option (GMap D)
gmap_init none total group_blocks cache = none
gmap_init (some d) total group_blocks cache =
    let ng = add64 total (group_blocks - 1) / group_blocks in
    let ss = blk_sector_size (some d) in
    if ltb group_blocks group_min || ltb group_max group_blocks
    then none
    else if not (bit_and group_blocks (group_blocks - 1) == 0)
    then none
    else if (ng == 0) || ltb max_groups ng
    then none
    else if (ss == 0) || not (block_size % ss == 0)
    then none
    else some (record {
      dev = d;
      spb = block_size / ss;
      total = total;
      gb = group_blocks;
      ngroups = ng;
      slot = λ _. 0;
      written = λ _. false;
      free = λ _. 0;
      cache = drop_cache cache;
      clock = 0;
    })

-- `m->cache[i].stamp = ++m->clock`
abbrev pub touch {ℓ} : {D : Type ℓ} → ℕ → GMap D → GMap D
touch i m =
    let now = add32 m.clock 1 in
    record m { clock = now; cache = update m.cache i (record (m.cache i) { stamp = now }) }

-- The first loop of `load`: the entry that holds group `g`.
unfoldable pub find_cached : ℕ → ℕ → ℕ → (ℕ → GMapEntry) → Option ℕ
find_cached zero i g cache = none
find_cached (suc n) i g cache =
    let rest = find_cached n (i + 1) g cache in
    if (cache i).valid && ((cache i).g == g) then some i else rest

-- The second loop: the first invalid entry, or the one with the oldest stamp. The victim so far
-- comes in.
unfoldable pub find_victim : ℕ → ℕ → Option ℕ → (ℕ → GMapEntry) → Option ℕ
find_victim zero i v cache = v
find_victim (suc n) i v cache =
    let older : Option ℕ = elim v [
      | none ↦ some i
      | some w ↦ if ltb (cache i).stamp (cache w).stamp then some i else some w
    ] in
    let rest = find_victim n (i + 1) older cache in if not (cache i).valid then some i else rest

abbrev pub drop_entry {ℓ} : {D : Type ℓ} → ℕ → GMap D → GMap D
drop_entry i m = record m { cache = update m.cache i (record (m.cache i) { valid = false }) }

-- The group is read into entry `v`, from its pending slot once this transaction has written it.
unfoldable pub fill_entry {ℓ} : {D : Type ℓ} → ℕ → ℕ → GMap D → Option ℕ × GMap D
fill_entry v g m =
    let src = if m.written g then other_slot (m.slot g) else m.slot g in
    let (read, bits) = gread g src (m.cache v).bits m in
    let now = add32 m.clock 1 in
    let filled : GMapEntry = record {
      bits = bits;
      g = g;
      valid = true;
      dirty = false;
      stamp = now;
    } in
    let failed : GMapEntry = record (m.cache v) { bits = bits; valid = false } in
    if read
    then (some v, record m { clock = now; cache = update m.cache v filled })
    else (none, record m { cache = update m.cache v failed })

-- A dirty victim goes to its pending slot first.
unfoldable pub evict_and_fill {ℓ} : {D : Type ℓ} → ℕ → ℕ → GMap D → Option ℕ × GMap D
evict_and_fill v g m =
    let (flushed, m') = flush_one v m in
    if (m.cache v).valid && (m.cache v).dirty
    then (if flushed then fill_entry v g m' else (none, drop_entry v m'))
    else fill_entry v g m

unfoldable pub load_into {ℓ} : {D : Type ℓ} → Option ℕ → ℕ → GMap D → Option ℕ × GMap D
load_into none g m = (none, m)
load_into (some v) g m = evict_and_fill v g m

-- The cache entry of group `g`; `none` is the null pointer.
unfoldable pub load {ℓ} : {D : Type ℓ} → ℕ → GMap D → Option ℕ × GMap D
load g m = elim (find_cached cache_size 0 g m.cache) [
  | some i ↦ (some i, touch i m)
  | none ↦ load_into (find_victim cache_size 0 none m.cache) g m
]

unfoldable pub flush_from {ℓ} : {D : Type ℓ} → ℕ → ℕ → GMap D → GmapStatus × GMap D
flush_from zero i m = (done, m)
flush_from (suc n) i m =
    let (wrote, m') = flush_one i m in
    let clean = flush_from n (i + 1) m in
    let flushed = flush_from n (i + 1) m' in
    if (m.cache i).valid && (m.cache i).dirty
    then (if wrote then flushed else (io_error, m'))
    else clean

unfoldable pub gmap_flush {ℓ} : {D : Type ℓ} → GMap D → GmapStatus × GMap D
gmap_flush m = flush_from cache_size 0 m

-- The two tables that the superblock must hold.
unfoldable pub gmap_export {ℓ} : {D : Type ℓ} → GMap D → (ℕ → ℕ) → (ℕ → ℕ) → (ℕ → ℕ) × (ℕ → ℕ)
gmap_export m slot free = (
  λ g.
      if ltb g m.ngroups then (if m.written g then other_slot (m.slot g) else m.slot g) else slot g,
  λ g. if ltb g m.ngroups then m.free g else free g,
)

unfoldable pub gmap_commit {ℓ} : {D : Type ℓ} → GMap D → GMap D
gmap_commit m = record m {
  slot = λ g. if ltb g m.ngroups && m.written g then other_slot (m.slot g) else m.slot g;
  written = λ g. if ltb g m.ngroups then false else m.written g;
}

-- while (i < valid && bit_of(bits, i)) i++, with `n` rounds left
unfoldable pub skip_used : ℕ → ℕ → (ℕ → ℕ) → ℕ
skip_used zero i bits = i
skip_used (suc n) i bits = let rest = skip_used n (i + 1) bits in if bit_of bits i then rest else i

-- The loop that takes free blocks from `j` on: rounds left, and the end with the bits.
unfoldable pub take_free : ℕ → ℕ → (ℕ → ℕ) → ℕ × (ℕ → ℕ)
take_free zero j bits = (j, bits)
take_free (suc n) j bits =
    let rest = take_free n (j + 1) (bit_put bits j true) in
    if bit_of bits j then (j, bits) else rest

-- GMAP_OK with the first block and the length, or an error.
pub data Taken : Type 0 where
  got : ℕ → ℕ → Taken
  missed : GmapStatus → Taken

abbrev pub smaller : ℕ → ℕ → ℕ
smaller a b = if ltb a b then a else b

-- The part of the loop body of `gmap_take` behind `load`; `none` is `continue`.
unfoldable pub take_in {ℓ} : {D : Type ℓ} → ℕ → ℕ → ℕ → Option ℕ → GMap D → Option Taken × GMap D
take_in g from need none m = (some (missed io_error), m)
take_in g from need (some e) m =
    let valid = valid_bits m g in
    let i = skip_used (valid - from) from (m.cache e).bits in
    let (j, bits) = take_free (smaller (valid - i) need) i (m.cache e).bits in
    let used : GMapEntry = record (m.cache e) { bits = bits; dirty = true } in
    if i == valid then (none, m) else (
      some (got (g * m.gb % 2 ^ 64 + i) (j - i)),
      record m {
        cache = update m.cache e used;
        free = update m.free g ((m.free g + 2 ^ 32 - (j - i)) % 2 ^ 32);
      },
    )

unfoldable pub take_from {ℓ} : {D : Type ℓ} → ℕ → ℕ → ℕ → ℕ → ℕ → GMap D → Taken × GMap D
take_from zero k g0 off0 need m = (missed no_space, m)
take_from (suc n) k g0 off0 need m =
    let g = add32 g0 k % m.ngroups in
    let (e, m') = load g m in
    let (r, m'') = take_in g (if k == 0 then off0 else 0) need e m' in
    let full = take_from n (k + 1) g0 off0 need m in
    let next = take_from n (k + 1) g0 off0 need m'' in
    let tried : Taken × GMap _ = elim r [ none ↦ next | some t ↦ (t, m'') ] in
    if m.free g == 0 then full else tried

unfoldable pub gmap_take {ℓ} : {D : Type ℓ} → ℕ → ℕ → GMap D → Taken × GMap D
gmap_take hint need m =
    let g0 = hint / m.gb % 2 ^ 32 in
    let outside = leb m.ngroups g0 in
    if need == 0
    then (missed no_space, m)
    else take_from (m.ngroups + 1) 0 (if outside then 0 else g0)
        (if outside then 0 else hint % m.gb) need m

-- The part of the loop body of `gmap_release` behind `load`.
unfoldable pub release_in {ℓ} : {D : Type ℓ} → ℕ → ℕ → Option ℕ → GMap D → GmapStatus × GMap D
release_in g i none m = (io_error, m)
release_in g i (some e) m =
    let cleared : GMapEntry = record (m.cache e) {
      bits = bit_put (m.cache e).bits i false;
      dirty = true;
    } in
    if not (bit_of (m.cache e).bits i) then (not_used, m) else (
      done,
      record m { cache = update m.cache e cleared; free = update m.free g (add32 (m.free g) 1) },
    )

abbrev pub is_done : GmapStatus → Bool
is_done done = true
is_done s = false

unfoldable pub gmap_release {ℓ} : {D : Type ℓ} → ℕ → ℕ → GMap D → GmapStatus × GMap D
gmap_release start zero m = (done, m)
gmap_release start (suc len) m =
    let g = start / m.gb % 2 ^ 32 in
    let (e, m') = load g m in
    let (rc, m'') = release_in g (start % m.gb) e m' in
    let rest = gmap_release (start + 1) len m'' in if is_done rc then rest else (rc, m'')

-- `none` is GMAP_EIO.
unfoldable pub gmap_is_used {ℓ} : {D : Type ℓ} → ℕ → GMap D → Option Bool × GMap D
gmap_is_used block m =
    let (e, m') = load (block / m.gb % 2 ^ 32) m in
    (elim e [ none ↦ none | some i ↦ some (bit_of (m'.cache i).bits (block % m.gb)) ], m')

unfoldable pub gmap_free_total {ℓ} : {D : Type ℓ} → GMap D → ℕ
gmap_free_total m = for_up m.ngroups 0 (λ g n. add64 n (m.free g)) 0

-- For a group of the map whose slot is 0 or 1, and a map of as many groups: the slot that
-- `gmap_export` gives the superblock is the one that `gmap_commit` leaves in memory, and after
-- `gmap_import` of the exported tables the group has the slot, the free count and the clean mark
-- that the commit leaves.
pub import-export {ℓ} :
    {D : Type ℓ} (m m0 : GMap D) (slot free : ℕ → ℕ) (g : ℕ)
    → m0.ngroups ≡ m.ngroups
    → g < m.ngroups
    → m.slot g ≤ 1
    → let e = gmap_export m slot free in
      let mounted = gmap_import e.0 e.1 m0 in
      (e.0 g ≡ (gmap_commit m).slot g)
      × (mounted.slot g ≡ (gmap_commit m).slot g)
      × (mounted.free g ≡ (gmap_commit m).free g)
      × (mounted.written g ≡ (gmap_commit m).written g)
unfolding gmap_export gmap_commit gmap_import
import-export m m0 slot free g same inside small =
    (ground arith, ground arith, ground arith, ground arith)
