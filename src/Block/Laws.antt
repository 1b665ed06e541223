-- ===== src/Block/Laws.antt =====
-- Reads and writes of the RAM disk through the checks of blk.c.
use xasmos.Base.{
  ℕ, zero, suc, ◌+◌, ◌-◌, ◌*◌, ◌%◌, ◌^◌, ◌≤◌, ◌<◌, ◌≡◌, refl, ◌&&◌, some, ltb, leb, ◌==◌,
  if◌then◌else◌, arith, ap, if_both, update, for_up, Bool-cases, inl, inr,
}
use native.Mathlib.Nat.{mul-le-mul_right, add-mul}
use xasmos.Block.Device.{
  ok, range, Buffer, BlkOps, BlkDev, refused, allowed, check_range, check, run_read, run_write,
  blk_read, blk_write,
}
use xasmos.Block.Ramdisk.{rd_ops, RamDisk, copy, rd_read, rd_write, rd_device}

copy_loop :
    (n k to : ℕ) (dst : ℕ → ℕ) (from : ℕ) (src : ℕ → ℕ) (j : ℕ)
    → for_up n k (λ i d. update d (to + i) (src (from + i))) dst j
      ≡ (if leb (to + k) j && ltb j (to + k + n) then src (from + (j - to)) else dst j)
unfolding for_up
copy_loop zero k to dst from src j = ground arith
copy_loop (suc n) k to dst from src j =
    let rest = copy_loop n (k + 1) to (update dst (to + k) (src (from + k))) from src j in
    elim (Bool-cases (j == to + k)) [
      | inl e ↦
          let e' : j - to ≡ k = ground arith in
          let at : src (from + (j - to)) ≡ src (from + k) = ap (λ x. src (from + x)) e' in
          rw rest (ground (arith, at))
      | inr e ↦ rw rest (ground arith)
    ]

copy-at :
    (n to : ℕ) (dst : ℕ → ℕ) (from : ℕ) (src : ℕ → ℕ) (j : ℕ)
    → copy n to dst from src j
      ≡ (if leb to j && ltb j (to + n) then src (from + (j - to)) else dst j)
unfolding copy
copy-at n to dst from src j = rw (copy_loop n 0 to dst from src j) (ground arith)

-- A request inside the device passes the checks.
check_passes {ℓ} :
    {D : Type ℓ} (d : BlkDev D) (ops : BlkOps D) (lba n : ℕ) (buf : Buffer)
    → 0 < n
    → lba + n ≤ d.sector_count
    → check_range d ops lba n buf ≡ allowed (ops, buf)
unfolding check_range
check_passes d ops lba n buf pos inside =
    if_both (λ r. r ≡ allowed (ops, buf)) (n == 0) _ _ (λ e. absurd (ground arith))
      (λ _.
        if_both (λ r. r ≡ allowed (ops, buf)) (ltb d.sector_count lba) _ _
          (λ e. absurd (ground arith))
          (λ _.
            if_both (λ r. r ≡ allowed (ops, buf)) (ltb (d.sector_count - lba) n) _ _
              (λ e. absurd (ground arith)) (λ _. refl)))

check_refuses {ℓ} :
    {D : Type ℓ} (d : BlkDev D) (ops : BlkOps D) (lba n : ℕ) (buf : Buffer)
    → 0 < n
    → d.sector_count < lba + n
    → check_range d ops lba n buf ≡ refused range
unfolding check_range
check_refuses d ops lba n buf pos outside =
    if_both (λ r. r ≡ refused range) (n == 0) _ _ (λ e. absurd (ground arith))
      (λ _.
        if_both (λ r. r ≡ refused range) (ltb d.sector_count lba) _ _ (λ _. refl)
          (λ _.
            if_both (λ r. r ≡ refused range) (ltb (d.sector_count - lba) n) _ _ (λ _. refl)
              (λ e. absurd (ground arith))))

-- On a device with a driver table, a request for one sector or more that runs past the end is
-- refused with a range error before any driver sees it: the buffer of a read and the device of a
-- write are as before.
pub past_end_refused {ℓ} :
    {D : Type ℓ} (d : BlkDev D) (ops : BlkOps D) (lba n : ℕ) (buf : Buffer)
    → d.ops ≡ some ops
    → 0 < n
    → d.sector_count < lba + n
    → (blk_read (some d) lba n (some buf) ≡ (range, some buf))
      × (blk_write (some d) lba n (some buf) ≡ (range, some d))
unfolding blk_read blk_write check run_read run_write check_range
past_end_refused d ops lba n buf e pos outside =
    let no = check_refuses d ops lba n buf pos outside in (rw (e, no) refl, rw (e, no) refl)

-- For one sector or more inside a RAM disk of less than 2^64 bytes: what is written to the sectors
-- is what is read back from them, and the bytes of the buffer behind the sectors stay as they were;
-- the write changes no byte of the disk outside the sectors.
pub ramdisk_round_trip :
    (r : RamDisk) (lba n : ℕ) (buf out : Buffer)
    → 0 < n
    → lba + n ≤ r.sector_count
    → r.sector_count * r.sector_size < 2 ^ 64
    → let size = n * r.sector_size in
      let start = lba * r.sector_size in
      (r' : RamDisk) × (b : Buffer) × (blk_write (some (rd_device r)) lba n (some buf)
        ≡ (ok, some (rd_device r')))
      × (blk_read (some (rd_device r')) lba n (some out) ≡ (ok, some b))
      × ((i : ℕ) → b i ≡ (if ltb i size then buf i else out i))
      × ((j : ℕ)
          → r'.mem j ≡ (if leb start j && ltb j (start + size) then buf (j - start) else r.mem j))
unfolding blk_read blk_write check run_read run_write rd_read rd_write
ramdisk_round_trip r lba n buf out pos inside small =
    let d = rd_device r in
    let size = n * r.sector_size in
    let start = lba * r.sector_size in
    let r' : RamDisk = record r { mem = copy (size % 2 ^ 64) (start % 2 ^ 64) r.mem 0 buf } in
    let yes = check_passes d rd_ops lba n buf pos inside in
    let again = check_passes (rd_device r') rd_ops lba n out pos inside in
    let fits : size + start < 2 ^ 64 =
      omega (arith, add-mul lba n r.sector_size, mul-le-mul_right r.sector_size inside) in
    let b : Buffer = copy (size % 2 ^ 64) 0 out (start % 2 ^ 64) r'.mem in
    (
      r',
      b,
      rw yes refl,
      rw again refl,
      λ i. ground (
        arith,
        copy-at (size % 2 ^ 64) 0 out (start % 2 ^ 64) r'.mem i,
        copy-at (size % 2 ^ 64) (start % 2 ^ 64) r.mem 0 buf (start % 2 ^ 64 + (i - 0)),
      ),
      λ j. ground (arith, copy-at (size % 2 ^ 64) (start % 2 ^ 64) r.mem 0 buf j),
    )
