-- ===== src/Block/Ramdisk.antt =====
-- source/core/blk/ramdisk.c: a block device whose storage is memory. The memory is a function from
-- the offset in `r->mem` to the byte there.
use xasmos.Base.{
  ℕ, ◌+◌, ◌-◌, ◌*◌, ◌/◌, ◌%◌, ◌^◌, Bool, not, ◌||◌, Option, none, some, ltb, ◌==◌, if◌then◌else◌,
  bit_and, update, for_up,
}
use xasmos.Block.Device.{Status, ok, Buffer, BlkOps, BlkDev}

pub record RamDisk : Type 0 where
  pub mem : ℕ → ℕ
  pub sector_size : ℕ
  pub sector_count : ℕ

-- for (i = 0; i < n; i++) dst[to + i] = src[from + i];
unfoldable pub copy : ℕ → ℕ → (ℕ → ℕ) → ℕ → (ℕ → ℕ) → ℕ → ℕ
copy n to dst from src = for_up n 0 (λ i d. update d (to + i) (src (from + i))) dst

unfoldable pub rd_read : RamDisk → ℕ → ℕ → Buffer → Status × Buffer
rd_read r lba n buf =
    (ok, copy (n * r.sector_size % 2 ^ 64) 0 buf (lba * r.sector_size % 2 ^ 64) r.mem)

unfoldable pub rd_write : RamDisk → ℕ → ℕ → Buffer → Status × RamDisk
rd_write r lba n buf = (
  ok,
  record r { mem = copy (n * r.sector_size % 2 ^ 64) (lba * r.sector_size % 2 ^ 64) r.mem 0 buf },
)

abbrev pub rd_flush : RamDisk → Status × RamDisk
rd_flush r = (ok, r)

abbrev pub rd_ops : BlkOps RamDisk
rd_ops = record { read = some rd_read; write = some rd_write; flush = some rd_flush }

abbrev pub rd_device : RamDisk → BlkDev RamDisk
rd_device r = record {
  ctx = r;
  ops = some rd_ops;
  sector_size = r.sector_size;
  sector_count = r.sector_count;
}

-- (x & (x - 1)) == 0, on a word that is not 0
abbrev pub is_power_of_two : ℕ → Bool
is_power_of_two x = bit_and x (x - 1) == 0

-- The device that `ramdisk_device` shows afterwards; `none` is BLK_E_ARG.
unfoldable pub ramdisk_init : Option (ℕ → ℕ) → ℕ → ℕ → Option (BlkDev RamDisk)
ramdisk_init none bytes sector_size = none
ramdisk_init (some mem) bytes sector_size =
    if ltb sector_size 512 || ltb 4096 sector_size || not (is_power_of_two sector_size)
    then none
    else if (bytes == 0) || not (bytes % sector_size == 0)
    then none
    else some (
        rd_device (record {
          mem = for_up bytes 0 (λ i m. update m i 0) mem;
          sector_size = sector_size;
          sector_count = bytes / sector_size;
        }))
