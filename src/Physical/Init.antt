-- ===== src/Physical/Init.antt =====
-- `phys_init_from_handoff` of physical.c, with the boot structures of
-- source/arch/amd64/boot/exord/efi/efi_types.h. The memory map is what the firmware left in memory:
-- a function from a byte offset into the map to the descriptor that is read there.
use xasmos.Base.{
  ℕ, zero, suc, ◌+◌, ◌-◌, ◌*◌, ◌/◌, ◌%◌, ◌^◌, Bool, not, ◌&&◌, ◌||◌, Option, none, some, ltb, leb,
  ◌==◌, if◌then◌else◌, add64,
}
use xasmos.Physical.State.{
  PhysBitmap, mark_range_free, phys_reserve_range, frame_size, frame_shift, bitmap_max_frames,
}

pub record FramebufferInfo : Type 0 where
  pub base : ℕ
  pub height : ℕ
  pub pixels_per_scanline : ℕ

pub record XeretHandoff : Type 0 where
  pub magic : ℕ
  pub fb : FramebufferInfo
  pub mmap_addr : ℕ
  pub mmap_size : ℕ
  pub mmap_desc_size : ℕ
  pub phys_end : ℕ

pub record MemoryDescriptor : Type 0 where
  pub kind : ℕ
  pub physical_start : ℕ
  pub number_of_pages : ℕ

abbrev pub handoff_magic : ℕ
handoff_magic = 0x5845524554484E44

-- EfiLoaderCode, EfiLoaderData, EfiBootServicesCode, EfiBootServicesData, EfiConventionalMemory:
-- the cases of the `switch` that mark the range free
unfoldable pub is_freeable : ℕ → Bool
is_freeable kind = (kind == 7) || (kind == 3) || (kind == 4) || (kind == 1) || (kind == 2)

unfoldable pub add_descriptor : MemoryDescriptor → PhysBitmap → PhysBitmap
add_descriptor d p =
    if is_freeable d.kind then mark_range_free d.physical_start d.number_of_pages p else p

-- The walk over the memory map. `none` means that the bound on the rounds was too small.
unfoldable pub add_map : ℕ → (ℕ → MemoryDescriptor) → ℕ → ℕ → ℕ → PhysBitmap → Option PhysBitmap
add_map zero at off desc_size map_size p = none
add_map (suc fuel) at off desc_size map_size p =
    let rest =
      add_map fuel at (add64 off desc_size) desc_size map_size (add_descriptor (at off) p) in
    if leb (add64 off desc_size) map_size then rest else some p

-- Everything used, before the memory map is read.
unfoldable pub all_used : ℕ → ℕ → PhysBitmap
all_used frames phys_end = record {
  total_frames = frames;
  free_frames = 0;
  used_frames = frames;
  phys_end = phys_end;
  bits = λ _. 0;
}

-- The end of memory rounded up to frames, and cut off at what the bitmap can hold.
unfoldable pub size_bitmap : ℕ → PhysBitmap
size_bitmap phys_end =
    let frames = add64 phys_end (frame_size - 1) / 2 ^ frame_shift in
    if ltb bitmap_max_frames frames
    then all_used bitmap_max_frames (bitmap_max_frames * 2 ^ frame_shift)
    else all_used frames phys_end

-- The framebuffer's pages, so that the console is never recycled.
unfoldable pub reserve_framebuffer : FramebufferInfo → PhysBitmap → PhysBitmap
reserve_framebuffer fb p =
    if not (fb.base == 0) && not (fb.height == 0)
    then phys_reserve_range fb.base (fb.pixels_per_scanline * 4 * fb.height % 2 ^ 64) p
    else p

-- The first MiB and the framebuffer.
unfoldable pub reserve_fixed : FramebufferInfo → PhysBitmap → PhysBitmap
reserve_fixed fb p = reserve_framebuffer fb (phys_reserve_range 0 0x100000 p)

unfoldable pub handoff_ok : XeretHandoff → Bool
handoff_ok h =
    (h.magic == handoff_magic)
    && not (h.mmap_addr == 0)
    && not (h.mmap_size == 0)
    && not (h.mmap_desc_size == 0)
    && not (h.phys_end == 0)

-- The outcomes: -1 with the state untouched, 0 with the new state, or a walk cut short by the bound.
pub data InitResult : Type 0 where
  refused : InitResult
  ready : PhysBitmap → InitResult
  cut_short : InitResult

unfoldable pub finish_init : FramebufferInfo → Option PhysBitmap → InitResult
finish_init fb none = cut_short
finish_init fb (some p) = ready (reserve_fixed fb p)

-- `none` is the null pointer.
unfoldable pub phys_init_from_handoff : Option XeretHandoff → (ℕ → MemoryDescriptor) → InitResult
phys_init_from_handoff none at = refused
phys_init_from_handoff (some h) at =
    if handoff_ok h
    then finish_init h.fb
        (add_map (h.mmap_size + 1) at 0 h.mmap_desc_size h.mmap_size (size_bitmap h.phys_end))
    else refused
