-- ===== src/Physical/Reserve.antt =====
-- The bitmap before the memory map is read, and the reservations after it.
use xasmos.Base.{
  ℕ, ◌-◌, ◌/◌, ◌^◌, ◌≤◌, ◌<◌, ◌≡◌, refl, true, false, not, ◌&&◌, arith, ◌∙◌, ltb, ◌==◌, add64,
  if_both,
}
use xasmos.Bitmap.{test-zero, count-zero}
use xasmos.Physical.State.{
  PhysBitmap, bit_test, phys_reserve_range, frame_size, frame_shift, range_end, bitmap_max_frames,
}
use xasmos.Physical.Init.{
  FramebufferInfo, MemoryDescriptor, is_freeable, add_descriptor, all_used, size_bitmap,
  reserve_framebuffer, reserve_fixed,
}
use xasmos.Physical.Range.{
  IsValid, mark_range_free-IsValid, mark_range_used-IsValid, use_loop-Used,
  bit_test-phys_reserve_range,
}

pub all_used-IsValid : (n e : ℕ) → n ≤ bitmap_max_frames → IsValid (all_used n e)
unfolding all_used
all_used-IsValid n e h = record {
  counted = omega (arith, count-zero n);
  total = omega arith;
  fits = h;
}

pub size_bitmap-IsValid : (e : ℕ) → IsValid (size_bitmap e)
unfolding size_bitmap
size_bitmap-IsValid e =
    if_both IsValid (ltb bitmap_max_frames (add64 e (frame_size - 1) / 2 ^ frame_shift)) _ _
      (λ _. all_used-IsValid _ _ (omega arith)) (λ h. all_used-IsValid _ _ (ground arith))

pub all_used_empty : (n e g : ℕ) → bit_test (all_used n e) g ≡ false
unfolding all_used
all_used_empty n e g = test-zero g

pub size_bitmap_empty : (e g : ℕ) → bit_test (size_bitmap e) g ≡ false
unfolding size_bitmap
size_bitmap_empty e g =
    if_both (λ p. bit_test p g ≡ false)
      (ltb bitmap_max_frames (add64 e (frame_size - 1) / 2 ^ frame_shift)) _ _
      (λ _. all_used_empty _ _ g) (λ _. all_used_empty _ _ g)

pub add_descriptor-IsValid :
    (d : MemoryDescriptor) (p : PhysBitmap) → IsValid p → IsValid (add_descriptor d p)
unfolding add_descriptor
add_descriptor-IsValid d p v =
    if_both IsValid (is_freeable d.kind) _ _
      (λ _. mark_range_free-IsValid d.physical_start d.number_of_pages p v) (λ _. v)

pub reserve_framebuffer-IsValid :
    (fb : FramebufferInfo) (p : PhysBitmap) → IsValid p → IsValid (reserve_framebuffer fb p)
unfolding reserve_framebuffer phys_reserve_range
reserve_framebuffer-IsValid fb p v =
    if_both IsValid (not (fb.base == 0) && not (fb.height == 0)) _ _
      (λ _. mark_range_used-IsValid fb.base _ p v) (λ _. v)

pub reserve_fixed-IsValid :
    (fb : FramebufferInfo) (p : PhysBitmap) → IsValid p → IsValid (reserve_fixed fb p)
unfolding reserve_fixed phys_reserve_range
reserve_fixed-IsValid fb p v =
    reserve_framebuffer-IsValid fb _ (mark_range_used-IsValid 0 0x100000 p v)

-- A reservation frees nothing.
pub reserve_frees_nothing :
    (addr size : ℕ) (p : PhysBitmap) (g : ℕ)
    → bit_test (phys_reserve_range addr size p) g ≡ true
    → bit_test p g ≡ true
unfolding phys_reserve_range
reserve_frees_nothing addr size p g =
    if_both (λ q. bit_test q g ≡ true → bit_test p g ≡ true) (size == 0) _ _ (λ _ h. h)
      (λ _ h. ground (arith, (use_loop-Used rounds (addr / 2 ^ frame_shift) p).bit g))
  where
    rounds : ℕ
    rounds =
        range_end p (addr / 2 ^ frame_shift) (add64 size (frame_size - 1) / 2 ^ frame_shift)
        - addr / 2 ^ frame_shift

pub framebuffer_frees_nothing :
    (fb : FramebufferInfo) (p : PhysBitmap) (g : ℕ)
    → bit_test (reserve_framebuffer fb p) g ≡ true
    → bit_test p g ≡ true
unfolding reserve_framebuffer
framebuffer_frees_nothing fb p g =
    if_both (λ q. bit_test q g ≡ true → bit_test p g ≡ true)
      (not (fb.base == 0) && not (fb.height == 0)) _ _ (λ _. reserve_frees_nothing fb.base _ p g)
      (λ _ h. h)

pub total-phys_reserve_range :
    (addr size : ℕ) (p : PhysBitmap)
    → (phys_reserve_range addr size p).total_frames ≡ p.total_frames
unfolding phys_reserve_range
total-phys_reserve_range addr size p =
    if_both (λ (q : PhysBitmap). q.total_frames ≡ p.total_frames) (size == 0) _ _ (λ _. refl)
      (λ _. (use_loop-Used _ (addr / 2 ^ frame_shift) p).total)

pub total-reserve_fixed :
    (fb : FramebufferInfo) (p : PhysBitmap) → (reserve_fixed fb p).total_frames ≡ p.total_frames
unfolding reserve_fixed reserve_framebuffer
total-reserve_fixed fb p =
    if_both (λ (q : PhysBitmap). q.total_frames ≡ p.total_frames)
      (not (fb.base == 0) && not (fb.height == 0)) _ _
      (λ _. total-phys_reserve_range fb.base _ _ ∙ total-phys_reserve_range 0 0x100000 p)
      (λ _. total-phys_reserve_range 0 0x100000 p)

pub reserve_fixed_low :
    (fb : FramebufferInfo) (p : PhysBitmap) (g : ℕ)
    → g < 256
    → g < p.total_frames
    → bit_test (reserve_fixed fb p) g ≡ false
unfolding reserve_fixed
reserve_fixed_low fb p g low inside = ground (
  arith,
  framebuffer_frees_nothing fb (phys_reserve_range 0 0x100000 p) g,
  bit_test-phys_reserve_range 0 0x100000 p g (omega arith) (omega arith) inside,
)

pub reserve_fixed_frees_nothing :
    (fb : FramebufferInfo) (p : PhysBitmap) (g : ℕ)
    → bit_test (reserve_fixed fb p) g ≡ true
    → bit_test p g ≡ true
unfolding reserve_fixed
reserve_fixed_frees_nothing fb p g e =
    reserve_frees_nothing 0 0x100000 p g (framebuffer_frees_nothing fb _ g e)
