-- ===== src/Tests/Physical.antt =====
-- The theorems on source/arch/amd64/kernel/xeret/mem/physical.c, on small bitmaps.
use xasmos.Base.{
  ℕ, ◌+◌, ◌/◌, ◌^◌, ◌≤◌, ◌<◌, ◌≡◌, ◌≢◌, ◌⊎◌, inl, inr, refl, false, arith, leb, ◌==◌, if◌then◌else◌,
  some, sum_below,
}
use xasmos.Bitmap.{test_byte, count, test, weigh}
use xasmos.Physical.State.{PhysBitmap, bit_test, phys_free_frames}
use xasmos.Physical.Alloc.{scan, taken, phys_alloc_frames, scan_huge, phys_alloc_huge}
use xasmos.Physical.Range.{IsValid}
use xasmos.Physical.Scan.{IsFreeRun}
use xasmos.Physical.Laws.{Allocated, phys_alloc_frames-Allocated, phys_alloc_frames_complete}
use xasmos.Physical.Init.{XeretHandoff, MemoryDescriptor, phys_init_from_handoff, handoff_ok, ready}
use xasmos.Physical.Boot.{Booted, phys_init-Booted}
use xasmos.Physical.Contract.{phys_free-alloc, phys_alloc_huge-Allocated}

-- Eight frames, of which the first is used.
abbrev pub eight : PhysBitmap
eight = record {
  total_frames = 8;
  free_frames = 7;
  used_frames = 1;
  phys_end = 32768;
  bits = λ _. 0xFE;
}

pub eight-IsValid : IsValid eight
unfolding count sum_below test weigh test_byte
eight-IsValid = record { counted = refl; total = refl; fits = omega arith }

pub eight_low : bit_test eight 0 ≡ false
unfolding test test_byte
eight_low = refl

two_allocated : (phys_alloc_frames 2 eight).0 ≡ 4096
unfolding phys_alloc_frames taken scan test test_byte
two_allocated = refl

phys_alloc_frames-Allocated_example :
    Allocated 2 eight (phys_alloc_frames 2 eight).0 (phys_alloc_frames 2 eight).1
phys_alloc_frames-Allocated_example =
    phys_alloc_frames-Allocated 2 eight eight-IsValid (omega (arith, two_allocated))

-- Frames 1, 3, 4 and 6 are free: no three in a row.
abbrev gaps : PhysBitmap
gaps = record {
  total_frames = 8;
  free_frames = 4;
  used_frames = 4;
  phys_end = 32768;
  bits = λ _. 0x5A;
}

gaps-IsValid : IsValid gaps
unfolding count sum_below test weigh test_byte
gaps-IsValid = record { counted = refl; total = refl; fits = omega arith }

gaps_low : bit_test gaps 0 ≡ false
unfolding test test_byte
gaps_low = refl

three_refused : (phys_alloc_frames 3 gaps).0 ≡ 0
unfolding phys_alloc_frames taken scan test test_byte
three_refused = refl

two_free : IsFreeRun gaps 3 2
unfolding test test_byte
two_free g a b = elim (at_three g a b) [ inl e ↦ rw e refl | inr e ↦ rw e refl ]
  where
    at_three : (g : ℕ) → 3 ≤ g → g < 3 + 2 → (g ≡ 3) ⊎ (g ≡ 4)
    at_three g a b = omega arith

phys_alloc_frames_complete_example : (phys_alloc_frames 2 gaps).0 ≢ 0
phys_alloc_frames_complete_example =
    phys_alloc_frames_complete 2 3 gaps gaps-IsValid gaps_low (omega arith) two_free (omega arith)

phys_free-alloc_example :
    let (addr, q) = phys_alloc_frames 2 eight in
    let r = phys_free_frames addr 2 q in
    ((g : ℕ) → bit_test r g ≡ bit_test eight g) × (r.free_frames ≡ 7) × (r.used_frames ≡ 1)
phys_free-alloc_example = phys_free-alloc 2 eight eight-IsValid (omega (arith, two_allocated))

-- Two huge pages, of which the second is free.
abbrev huge : PhysBitmap
huge = record {
  total_frames = 1024;
  free_frames = 512;
  used_frames = 512;
  phys_end = 2 ^ 22;
  bits = λ i. if leb 64 i then 0xFF else 0;
}

huge-IsValid : IsValid huge
unfolding count sum_below test weigh test_byte
huge-IsValid = record { counted = refl; total = refl; fits = omega arith }

huge_low : bit_test huge 0 ≡ false
unfolding test test_byte
huge_low = refl

huge_allocated : (phys_alloc_huge huge).0 ≡ 2 ^ 21
unfolding phys_alloc_huge taken scan_huge test test_byte
huge_allocated = refl

huge_free : IsFreeRun huge 512 512
huge_free =
    let r = phys_alloc_huge-Allocated huge huge-IsValid (omega (arith, huge_allocated)) in
    let at : (phys_alloc_huge huge).0 / 4096 ≡ 512 = omega (arith, huge_allocated) in
    rw at at r.1.was_free

-- A machine of 16 MiB with two entries in its memory map, one of them reserved.
abbrev handoff : XeretHandoff
handoff = record {
  magic = 0x5845524554484E44;
  fb = record { base = 0xE00000; height = 16; pixels_per_scanline = 64 };
  mmap_addr = 0x1000;
  mmap_size = 96;
  mmap_desc_size = 48;
  phys_end = 0x1000000;
}

abbrev memory_map : ℕ → MemoryDescriptor
memory_map off =
    if off == 0
    then record { kind = 7; physical_start = 0; number_of_pages = 2048 }
    else record { kind = 0; physical_start = 0x800000; number_of_pages = 2048 }

phys_init-Booted_example :
    (p : PhysBitmap) × (phys_init_from_handoff (some handoff) memory_map ≡ ready p)
    × Booted memory_map handoff.mmap_desc_size handoff.mmap_size p
unfolding handoff_ok
phys_init-Booted_example = phys_init-Booted handoff memory_map refl (omega arith)
