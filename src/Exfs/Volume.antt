-- ===== src/Exfs/Volume.antt =====
-- source/core/exfs/exfs.c and exfs.h: the state of the mounted volume, its blocks and its free
-- space. `Nodes` is the part of `V` that no device stands behind; `V.dev` is the device of the
-- group map. The flags are Booleans.
use xasmos.Base.{
  ℕ, zero, suc, ◌+◌, ◌*◌, ◌/◌, ◌%◌, ◌^◌, Bool, true, false, not, ◌||◌, Option, none, some, ltb,
  ◌==◌, if◌then◌else◌, add64, update,
}
use xasmos.Bitmap.{Bits}
use xasmos.Block.Device.{Buffer, BlkDev, blk_read, blk_write, blk_sector_size, blk_sector_count}
use xasmos.Exfs.Format.{Page, block_size, data_start, itab_area0, itab_area1}
use xasmos.Exfs.Superblock.{max_blocks}
use xasmos.Exfs.GroupMap.{GMap, is_ok, device_after, buffer_after}
use xasmos.Exfs.GroupOps.{Taken, got, missed, gmap_take, gmap_release}

abbrev pub name_max : ℕ
name_max = 95

abbrev pub exfs_inl : ℕ
exfs_inl = 8

abbrev pub ind_ext : ℕ
ind_ext = 254

abbrev pub max_ext : ℕ
max_ext = 2048

abbrev pub max_chain : ℕ
max_chain = 16

abbrev pub defer_max : ℕ
defer_max = 8192

abbrev pub pool_ext : ℕ
pool_ext = 16384

abbrev pub type_file : ℕ
type_file = 0

abbrev pub type_dir : ℕ
type_dir = 1

pub data ExfsStatus : Type 0 where
  exfs_ok enoent enospc eio enofs eexist einval ebroken enomem eisdir enotempty : ExfsStatus

-- A C array of characters.
abbrev pub CharArray : Type 0
CharArray = ℕ → ℕ

pub record ExfsExtent : Type 0 where
  pub start : ℕ
  pub len : ℕ

pub record ExfsFile : Type 0 where
  pub used : Bool
  pub type : ℕ
  pub size : ℕ
  pub name : CharArray
  pub n : ℕ
  pub ext_off : ℕ
  pub ext_cap : ℕ
  pub nchain : ℕ
  pub chain : ℕ → ℕ
  pub dirty : Bool

pub record Nodes : Type 0 where
  pub files : ℕ → ExfsFile
  pub pool : ℕ → ExfsExtent
  pub pool_used : Bits
  pub defer : ℕ → ExfsExtent
  pub ndefer : ℕ
  pub fresh : ℕ → ExfsExtent
  pub stage : ℕ → ExfsExtent
  pub nstage : ℕ
  pub dirty : Bool

pub record Volume {ℓ} (D : Type ℓ) : Type ℓ where
  pub spb : ℕ
  pub total : ℕ
  pub gen : ℕ
  pub itab_start : ℕ
  pub mounted : Bool
  pub broken : Bool
  pub gm : GMap D
  pub hint : ℕ
  pub nodes : Nodes
  pub page : Page
  pub itab : Buffer

-- FEXT(f)[i]
abbrev pub fext : Nodes → ExfsFile → ℕ → ExfsExtent
fext s f i = s.pool (f.ext_off + i)

unfoldable pub itab_area : ℕ → ℕ
itab_area gen = if gen % 2 == 0 then itab_area0 else itab_area1

-- Whether the write succeeded, and the volume.
unfoldable pub blk_put {ℓ} : {D : Type ℓ} → ℕ → Buffer → Volume D → Bool × Volume D
blk_put b buf v =
    let (rc, d) = blk_write (some v.gm.dev) (b * v.spb % 2 ^ 64) v.spb (some buf) in
    (is_ok rc, record v { gm = record v.gm { dev = device_after d v.gm.dev } })

-- Whether the read succeeded, and the buffer.
unfoldable pub blk_got {ℓ} : {D : Type ℓ} → ℕ → Buffer → Volume D → Bool × Buffer
blk_got b buf v =
    let (rc, b') = blk_read (some v.gm.dev) (b * v.spb % 2 ^ 64) v.spb (some buf) in
    (is_ok rc, buffer_after b' buf)

-- `spb` and `total`; `none` is EXFS_ENOFS.
unfoldable pub geometry {ℓ} : {D : Type ℓ} → BlkDev D → Option (ℕ × ℕ)
geometry d =
    let ss = blk_sector_size (some d) in
    let total = blk_sector_count (some d) * ss % 2 ^ 64 / block_size in
    if (ss == 0) || not (block_size % ss == 0)
    then none
    else if ltb total (data_start + 16) || ltb max_blocks total
    then none
    else some (block_size / ss, total)

-- What `take_extent` returns for an answer of `gmap_take`: the length taken, the extent, and the
-- volume.
unfoldable pub taken_extent {ℓ} :
    {D : Type ℓ} → Taken → ExfsExtent → Volume D → ℕ × ExfsExtent × Volume D
taken_extent (missed e) out v = (0, out, v)
taken_extent (got start len) out v = (
  len % 2 ^ 32,
  record { start = start; len = len % 2 ^ 32 },
  record v { hint = add64 start len },
)

-- `out` is what the extent held.
unfoldable pub take_extent {ℓ} :
    {D : Type ℓ} → ℕ → ExfsExtent → Volume D → ℕ × ExfsExtent × Volume D
take_extent need out v =
    let (r, gm) = gmap_take v.hint need v.gm in taken_extent r out (record v { gm = gm })

-- The loop over the fresh extents: rounds left, and index.
unfoldable pub release_from {ℓ} : {D : Type ℓ} → ℕ → ℕ → (ℕ → ExfsExtent) → GMap D → GMap D
release_from zero i fresh m = m
release_from (suc n) i fresh m =
    release_from n (i + 1) fresh (gmap_release (fresh i).start (fresh i).len m).1

unfoldable pub release_fresh {ℓ} : {D : Type ℓ} → ℕ → Volume D → Volume D
release_fresh n v = record v { gm = release_from n 0 v.nodes.fresh v.gm }

-- V.files[i] = f
abbrev pub set_file : ℕ → ExfsFile → Nodes → Nodes
set_file i f s = record s { files = update s.files i f }

abbrev pub is_success : ExfsStatus → Bool
is_success exfs_ok = true
is_success e = false
