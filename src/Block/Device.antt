-- ===== src/Block/Device.antt =====
-- source/core/blk/blk.c and blk.h: every request is checked against the device before a driver sees
-- it. A driver is its table of operations over a state `D`, the memory behind `ctx`; a null pointer
-- is `none`. A buffer is a function from offsets to bytes.
use xasmos.Base.{ℕ, ◌-◌, Option, none, some, ltb, ◌==◌, if◌then◌else◌}

pub data Status : Type 0 where
  ok arg range io timeout : Status

abbrev pub Buffer : Type 0
Buffer = ℕ → ℕ

pub record BlkOps {ℓ} (D : Type ℓ) : Type ℓ where
  pub read : Option (D → ℕ → ℕ → Buffer → Status × Buffer)
  pub write : Option (D → ℕ → ℕ → Buffer → Status × D)
  pub flush : Option (D → Status × D)

pub record BlkDev {ℓ} (D : Type ℓ) : Type ℓ where
  pub ctx : D
  pub ops : Option (BlkOps D)
  pub sector_size : ℕ
  pub sector_count : ℕ

-- The driver's table, if the request passes the checks, or the error.
pub data Checked {ℓ} (A : Type ℓ) : Type ℓ where
  refused : Status → Checked A
  allowed : A → Checked A

unfoldable pub check_range {ℓ} :
    {D : Type ℓ} → BlkDev D → BlkOps D → ℕ → ℕ → Buffer → Checked (BlkOps D × Buffer)
check_range d ops lba count buf =
    if count == 0
    then refused arg
    else if ltb d.sector_count lba
    then refused range
    else if ltb (d.sector_count - lba) count
    then refused range
    else allowed (ops, buf)

unfoldable pub check {ℓ} :
    {D : Type ℓ} → BlkDev D → ℕ → ℕ → Option Buffer → Checked (BlkOps D × Buffer)
check d lba count none = refused arg
check d lba count (some buf) = elim d.ops [
  | none ↦ refused arg
  | some ops ↦ check_range d ops lba count buf
]

unfoldable pub run_read {ℓ} :
    {D : Type ℓ}
    → BlkDev D
    → ℕ
    → ℕ
    → Option Buffer
    → Checked (BlkOps D × Buffer)
    → Status × Option Buffer
run_read d lba count buf (refused s) = (s, buf)
run_read d lba count buf (allowed (ops, b)) = elim ops.read [
  | none ↦ (io, buf)
  | some read ↦ let (s, b') = read d.ctx lba count b in (s, some b')
]

-- The status and the caller's buffer afterwards.
unfoldable pub blk_read {ℓ} :
    {D : Type ℓ} → Option (BlkDev D) → ℕ → ℕ → Option Buffer → Status × Option Buffer
blk_read none lba count buf = (arg, buf)
blk_read (some d) lba count buf = run_read d lba count buf (check d lba count buf)

unfoldable pub run_write {ℓ} :
    {D : Type ℓ} → BlkDev D → ℕ → ℕ → Checked (BlkOps D × Buffer) → Status × BlkDev D
run_write d lba count (refused s) = (s, d)
run_write d lba count (allowed (ops, b)) = elim ops.write [
  | none ↦ (io, d)
  | some write ↦ let (s, ctx) = write d.ctx lba count b in (s, record d { ctx = ctx })
]

-- The status and the device afterwards.
unfoldable pub blk_write {ℓ} :
    {D : Type ℓ} → Option (BlkDev D) → ℕ → ℕ → Option Buffer → Status × Option (BlkDev D)
blk_write none lba count buf = (arg, none)
blk_write (some d) lba count buf =
    let (s, d') = run_write d lba count (check d lba count buf) in (s, some d')

-- A device without a volatile cache has no flush.
unfoldable pub blk_flush {ℓ} : {D : Type ℓ} → Option (BlkDev D) → Status × Option (BlkDev D)
blk_flush none = (arg, none)
blk_flush (some d) = elim d.ops [
  | none ↦ (arg, some d)
  | some ops ↦ elim ops.flush [
    | none ↦ (ok, some d)
    | some flush ↦ let (s, ctx) = flush d.ctx in (s, some (record d { ctx = ctx }))
  ]
]

unfoldable pub blk_sector_size {ℓ} : {D : Type ℓ} → Option (BlkDev D) → ℕ
blk_sector_size none = 0
blk_sector_size (some d) = d.sector_size

unfoldable pub blk_sector_count {ℓ} : {D : Type ℓ} → Option (BlkDev D) → ℕ
blk_sector_count none = 0
blk_sector_count (some d) = d.sector_count
