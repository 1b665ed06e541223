-- ===== src/Physical/Alloc.antt =====
-- The two allocators of physical.c: the first run of free frames, and the first aligned run of 512.
use xasmos.Base.{
  ℕ, zero, suc, ◌+◌, ◌-◌, ◌*◌, ◌%◌, ◌^◌, Option, none, some, ltb, ◌==◌, if◌then◌else◌, add64, sub64,
  for_up,
}
use xasmos.Physical.State.{PhysBitmap, bit_clear, bit_test, frame_shift, frames_per_huge}

-- `for (f = ...; f < total; f++)`: the rounds left, the frame, the length and the start of the run.
unfoldable pub scan : ℕ → ℕ → ℕ → ℕ → ℕ → PhysBitmap → Option ℕ
scan zero f n run start p = none
scan (suc rounds) f n run start p =
    let start' = if run == 0 then f else start in
    let longer = scan rounds (f + 1) n (run + 1) start' p in
    let again = scan rounds (f + 1) n 0 start p in
    if bit_test p f then if run + 1 == n then some start' else longer else again

-- The frames of a run that was found become used.
unfoldable pub take_run : ℕ → ℕ → PhysBitmap → PhysBitmap
take_run start n p =
    let q = for_up n start (λ i r. bit_clear r i) p in
    record q { free_frames = sub64 q.free_frames n; used_frames = add64 q.used_frames n }

-- What both allocators do with what the scan found. Address 0 means failure.
unfoldable pub taken : Option ℕ → ℕ → PhysBitmap → ℕ × PhysBitmap
taken none n p = (0, p)
taken (some start) n p = (start * 2 ^ frame_shift % 2 ^ 64, take_run start n p)

unfoldable pub phys_alloc_frames : ℕ → PhysBitmap → ℕ × PhysBitmap
phys_alloc_frames n p =
    if n == 0
    then (0, p)
    else if ltb p.free_frames n
    then (0, p)
    else taken (scan p.total_frames 0 n 0 0 p) n p

-- `f | 511`, the last frame of the huge page of `f`
abbrev pub huge_last : ℕ → ℕ
huge_last f = f - f % frames_per_huge + (frames_per_huge - 1)

-- The loop of `phys_alloc_huge`, with a bound on its rounds.
unfoldable pub scan_huge : ℕ → ℕ → ℕ → ℕ → PhysBitmap → Option ℕ
scan_huge zero f run start p = none
scan_huge (suc fuel) f run start p =
    let aligned = f % frames_per_huge == 0 in
    let run' = if aligned then 0 else run in
    let start' = if aligned then f else start in
    let longer = scan_huge fuel (f + 1) (run' + 1) start' p in
    let skipped = scan_huge fuel (huge_last f + 1) 0 start' p in
    if ltb f p.total_frames
    then if bit_test p f
      then if run' + 1 == frames_per_huge then some start' else longer
      else skipped
    else none

-- The rounds are at most one for each frame.
unfoldable pub phys_alloc_huge : PhysBitmap → ℕ × PhysBitmap
phys_alloc_huge p = taken (scan_huge (p.total_frames + 1) 0 0 0 p) frames_per_huge p
