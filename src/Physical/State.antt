-- ===== src/Physical/State.antt =====
-- The state of physical.c and the functions that touch one frame or one range of frames.
use xasmos.Base.{
  ℕ, ◌-◌, ◌*◌, ◌/◌, ◌%◌, ◌^◌, Bool, ◌||◌, not, ltb, ◌==◌, if◌then◌else◌, add64, for_up,
}
use xasmos.Bitmap.{Bits, test, mark, clear}

abbrev pub frame_shift : ℕ
frame_shift = 12

abbrev pub frame_size : ℕ
frame_size = 2 ^ 12

abbrev pub frames_per_huge : ℕ
frames_per_huge = 512

-- 128 GiB of 4 KiB frames
abbrev pub bitmap_max_frames : ℕ
bitmap_max_frames = 128 * 1024 * 1024 * 1024 / frame_size

-- A set bit is a free frame.
pub record PhysBitmap : Type 0 where
  pub total_frames : ℕ
  pub free_frames : ℕ
  pub used_frames : ℕ
  pub phys_end : ℕ
  pub bits : Bits

abbrev pub bit_set : PhysBitmap → ℕ → PhysBitmap
bit_set p frame = record p { bits = mark p.bits frame }

abbrev pub bit_clear : PhysBitmap → ℕ → PhysBitmap
bit_clear p frame = record p { bits = clear p.bits frame }

abbrev pub bit_test : PhysBitmap → ℕ → Bool
bit_test p frame = test p.bits frame

-- `if (x > 0) x--`
abbrev pub drop_one : ℕ → ℕ
drop_one x = if ltb 0 x then x - 1 else x

-- The loop body that `mark_range_free` and `phys_free_frames` share.
unfoldable pub free_frame : ℕ → PhysBitmap → PhysBitmap
free_frame f p = if bit_test p f then p else record (bit_set p f) {
  free_frames = add64 p.free_frames 1;
  used_frames = drop_one p.used_frames;
}

-- The loop body of `mark_range_used`.
unfoldable pub use_frame : ℕ → PhysBitmap → PhysBitmap
use_frame f p =
    if bit_test p f
    then record (bit_clear p f) {
      free_frames = drop_one p.free_frames;
      used_frames = add64 p.used_frames 1;
    }
    else p

-- `end = f + n`, cut off at the number of frames.
abbrev pub range_end : PhysBitmap → ℕ → ℕ → ℕ
range_end p f n = let end = add64 f n in if ltb p.total_frames end then p.total_frames else end

-- A loop from `f` to an end that is not above it makes no round.
unfoldable pub mark_range_free : ℕ → ℕ → PhysBitmap → PhysBitmap
mark_range_free start pages p =
    let f = start / 2 ^ frame_shift in
    if pages == 0 then p else for_up (range_end p f pages - f) f free_frame p

unfoldable pub mark_range_used : ℕ → ℕ → PhysBitmap → PhysBitmap
mark_range_used start bytes p =
    let f = start / 2 ^ frame_shift in
    let pages = add64 bytes (frame_size - 1) / 2 ^ frame_shift in
    if bytes == 0 then p else for_up (range_end p f pages - f) f use_frame p

unfoldable pub phys_free_frames : ℕ → ℕ → PhysBitmap → PhysBitmap
phys_free_frames addr n p =
    let f = addr / 2 ^ frame_shift in
    if (n == 0) || not (addr % frame_size == 0)
    then p
    else if ltb p.total_frames (add64 f n)
    then p
    else for_up (add64 f n - f) f free_frame p

unfoldable pub phys_reserve_range : ℕ → ℕ → PhysBitmap → PhysBitmap
unfolding mark_range_used
phys_reserve_range addr size p = mark_range_used addr size p

abbrev pub phys_free_count : PhysBitmap → ℕ
phys_free_count p = p.free_frames

abbrev pub phys_total_count : PhysBitmap → ℕ
phys_total_count p = p.total_frames
