-- ===== src/Exfs/Superblock.antt =====
-- source/core/exfs/sb.c and sb.h: the encoding of the superblock, version 3.
use xasmos.Base.{
  ℕ, zero, suc, ◌+◌, ◌-◌, ◌*◌, ◌%◌, ◌^◌, Bool, true, not, ◌&&◌, ◌||◌, Option, none, some, ltb, leb,
  ◌==◌, if◌then◌else◌, for_up,
}
use xasmos.Exfs.Format.{
  Page, put8, put32, put64, get32, get64, fnv64, block_size, itab_area0, itab_area1, itab_blocks,
  data_start,
}

abbrev pub sb_version : ℕ
sb_version = 3

abbrev pub sb_max_groups : ℕ
sb_max_groups = 512

abbrev pub sb_check_off : ℕ
sb_check_off = 4088

abbrev pub max_blocks : ℕ
max_blocks = 2 ^ 24

abbrev pub inodes : ℕ
inodes = 128

pub record SbFields : Type 0 where
  pub gen : ℕ
  pub itab : ℕ
  pub nitab : ℕ
  pub ninodes : ℕ
  pub total : ℕ
  pub ngroups : ℕ
  pub slot : ℕ → ℕ
  pub free : ℕ → ℕ

-- "XASMFS2" and its terminator, by index.
unfoldable pub magic_at : ℕ → ℕ
magic_at i =
    if i == 0
    then b'X'
    else if i == 1
    then b'A'
    else if i == 2
    then b'S'
    else if i == 3
    then b'M'
    else if i == 4
    then b'F'
    else if i == 5
    then b'S'
    else if i == 6
    then b'2'
    else 0

-- Whether `p` holds of the `n` indices from `g` on.
unfoldable pub all_from : ℕ → ℕ → (ℕ → Bool) → Bool
all_from zero g p = true
all_from (suc n) g p = p g && all_from n (g + 1) p

unfoldable pub fields_ok : SbFields → Bool
fields_ok f =
    not ((f.ngroups == 0) || ltb sb_max_groups f.ngroups)
    && not (not (f.itab == itab_area0) && not (f.itab == itab_area1))
    && (f.nitab == itab_blocks)
    && (f.ninodes == inodes)
    && not (ltb f.total (data_start + 16) || ltb max_blocks f.total)
    && (f.itab == (if f.gen % 2 == 0 then itab_area0 else itab_area1))
    && all_from f.ngroups 0 (λ g. leb (f.slot g) 1)
    && all_from (sb_max_groups - f.ngroups) f.ngroups (λ g. (f.slot g == 0) && (f.free g == 0))

-- The loop body over the groups.
unfoldable pub put_group : SbFields → ℕ → Page → Page
put_group f g p = put32 (576 + g * 4) (f.free g) (put8 (64 + g) (f.slot g) p)

-- The page before its checksum. The page starts zeroed.
unfoldable pub put_fields : SbFields → Page → Page
put_fields f page =
    let cleared = for_up block_size 0 (λ i p. put8 i 0 p) page in
    let magic = for_up 8 0 (λ i p. put8 i (magic_at i) p) cleared in
    let header = put32 48 f.ngroups (
      put64 40 f.total (
        put32 36 f.ninodes
          (put32 32 f.nitab (put64 24 f.itab (put64 16 f.gen (put32 8 sb_version magic)))))) in
    for_up sb_max_groups 0 (put_group f) header

-- `none` is SB_EFIELD, with the page untouched.
unfoldable pub sb_encode : Page → SbFields → Option Page
sb_encode page f =
    let p = put_fields f page in
    if fields_ok f then some (put64 sb_check_off (fnv64 sb_check_off p) p) else none

pub data Decoded : Type 0 where
  read : SbFields → Decoded
  bad bad_checksum bad_field : Decoded

unfoldable pub get_fields : Page → SbFields
get_fields p = record {
  gen = get64 16 p;
  itab = get64 24 p;
  nitab = get32 32 p;
  ninodes = get32 36 p;
  total = get64 40 p;
  ngroups = get32 48 p;
  slot = λ g. p (64 + g) % 256;
  free = λ g. get32 (576 + g * 4) p;
}

-- SB_OK with the fields, SB_EBAD, SB_ECHECK, or SB_EFIELD.
unfoldable pub sb_decode : Page → Decoded
sb_decode p =
    let f = get_fields p in
    if not (all_from 8 0 (λ i. p i % 256 == magic_at i))
    then bad
    else if not (get32 8 p == sb_version)
    then bad
    else if not (get64 sb_check_off p == fnv64 sb_check_off p)
    then bad_checksum
    else if fields_ok f
    then read f
    else bad_field
