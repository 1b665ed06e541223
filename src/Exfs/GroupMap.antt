-- ===== src/Exfs/GroupMap.antt =====
-- source/core/exfs/gmap.c and gmap.h: the bitmaps of the block groups, two slots for each on disk,
-- with a cache of eight of them in memory. A set bit is a used block. The device is part of the
-- state, since writes go through it.
use xasmos.Base.{
  ℕ, zero, suc, ◌+◌, ◌-◌, ◌*◌, ◌%◌, ◌^◌, Bool, true, false, not, Option, none, some, ltb, leb, ◌==◌,
  if◌then◌else◌, add32, update, for_up,
}
use xasmos.Bitmap.{Bits, test, mark, clear}
use xasmos.Block.Device.{Status, ok, Buffer, BlkDev, blk_read, blk_write}
use xasmos.Exfs.Format.{block_size, data_start}

abbrev pub max_groups : ℕ
max_groups = 512

abbrev pub cache_size : ℕ
cache_size = 8

abbrev pub group_max : ℕ
group_max = 32768

abbrev pub group_min : ℕ
group_min = 64

pub record GMapEntry : Type 0 where
  pub bits : Bits
  pub g : ℕ
  pub valid : Bool
  pub dirty : Bool
  pub stamp : ℕ

pub record GMap {ℓ} (D : Type ℓ) : Type ℓ where
  pub dev : BlkDev D
  pub spb : ℕ
  pub total : ℕ
  pub gb : ℕ
  pub ngroups : ℕ
  pub slot : ℕ → ℕ
  pub written : ℕ → Bool
  pub free : ℕ → ℕ
  pub cache : ℕ → GMapEntry
  pub clock : ℕ

-- GMAP_OK, GMAP_EIO, GMAP_ENOSPC, GMAP_EUSED
pub data GmapStatus : Type 0 where
  done io_error no_space not_used : GmapStatus

unfoldable pub slot_block {ℓ} : {D : Type ℓ} → GMap D → ℕ → ℕ → ℕ
slot_block m g s = (if g == 0 then data_start else g * m.gb % 2 ^ 64) + s

unfoldable pub valid_bits {ℓ} : {D : Type ℓ} → GMap D → ℕ → ℕ
valid_bits m g = let n = (m.total + 2 ^ 64 - g * m.gb) % 2 ^ 64 in if ltb n m.gb then n else m.gb

abbrev pub bit_of : Bits → ℕ → Bool
bit_of b i = test b i

abbrev pub bit_put : Bits → ℕ → Bool → Bits
bit_put b i v = if v then mark b i else clear b i

abbrev pub is_ok : Status → Bool
is_ok ok = true
is_ok s = false

-- `blk_write` keeps the device; only its driver's state moves on.
abbrev pub device_after {ℓ} : {D : Type ℓ} → Option (BlkDev D) → BlkDev D → BlkDev D
device_after none d = d
device_after (some d') d = d'

unfoldable pub gwrite {ℓ} : {D : Type ℓ} → ℕ → ℕ → Bits → GMap D → Bool × GMap D
gwrite g s bits m =
    let blk = slot_block m g s in
    let (rc, d) = blk_write (some m.dev) (blk * m.spb % 2 ^ 64) m.spb (some bits) in
    (is_ok rc, record m { dev = device_after d m.dev })

abbrev pub buffer_after : Option Buffer → Buffer → Buffer
buffer_after none b = b
buffer_after (some b') b = b'

unfoldable pub gread {ℓ} : {D : Type ℓ} → ℕ → ℕ → Bits → GMap D → Bool × Bits
gread g s bits m =
    let blk = slot_block m g s in
    let (rc, b) = blk_read (some m.dev) (blk * m.spb % 2 ^ 64) m.spb (some bits) in
    (is_ok rc, buffer_after b bits)

-- The loop body of `fresh_bits`, over the bits and the count of free blocks.
unfoldable pub fresh_bit : ℕ → ℕ → Bits × ℕ → Bits × ℕ
fresh_bit valid i (bits, free) =
    if leb valid i
    then (bit_put bits i true, free)
    else if not (bit_of bits i)
    then (bits, add32 free 1)
    else (bits, free)

unfoldable pub fresh_bits {ℓ} : {D : Type ℓ} → GMap D → ℕ → Bits → Bits × ℕ
fresh_bits m g bits =
    let zeroed = for_up block_size 0 (λ i b. update b i 0) bits in
    let reserved = if g == 0 then data_start + 2 else 2 in
    let taken = for_up reserved 0 (λ i b. bit_put b i true) zeroed in
    for_up m.gb 0 (fresh_bit (valid_bits m g)) (taken, 0)

abbrev pub drop_cache : (ℕ → GMapEntry) → ℕ → GMapEntry
drop_cache cache i = if ltb i cache_size then record (cache i) { valid = false } else cache i

-- The loop of `gmap_format`. The buffer is static: it keeps its bytes between groups.
unfoldable pub format_from {ℓ} : {D : Type ℓ} → ℕ → ℕ → Bits → GMap D → Bool × GMap D
format_from zero g bits m = (true, m)
format_from (suc n) g bits m =
    let (fresh, count) = fresh_bits m g bits in
    let (wrote, m') = gwrite g 0 fresh (record m { free = update m.free g count }) in
    let next = record m' { slot = update m'.slot g 0; written = update m'.written g false } in
    let rest = format_from n (g + 1) fresh next in if wrote then rest else (false, m')

unfoldable pub gmap_format {ℓ} : {D : Type ℓ} → Bits → GMap D → GmapStatus × GMap D
gmap_format bits m =
    let (formatted, m') = format_from m.ngroups 0 bits m in
    if formatted then (done, record m' { cache = drop_cache m'.cache }) else (io_error, m')

unfoldable pub gmap_import {ℓ} : {D : Type ℓ} → (ℕ → ℕ) → (ℕ → ℕ) → GMap D → GMap D
gmap_import slot free m = record m {
  slot = λ g. if ltb g m.ngroups then (if slot g == 0 then 0 else 1) else m.slot g;
  written = λ g. if ltb g m.ngroups then false else m.written g;
  free = λ g. if ltb g m.ngroups then free g else m.free g;
  cache = drop_cache m.cache;
}

-- The slot that is not committed: (uint8_t)(1 - slot)
abbrev pub other_slot : ℕ → ℕ
other_slot s = (1 + 2 ^ 8 - s % 2 ^ 8) % 2 ^ 8

-- Writes cache entry `i` to its group's pending slot.
unfoldable pub flush_one {ℓ} : {D : Type ℓ} → ℕ → GMap D → Bool × GMap D
flush_one i m =
    let e = m.cache i in
    let (wrote, m') = gwrite e.g (other_slot (m.slot e.g)) e.bits m in
    if wrote
    then (
      true,
      record m' {
        written = update m'.written e.g true;
        cache = update m'.cache i (record e { dirty = false });
      },
    )
    else (false, m')
