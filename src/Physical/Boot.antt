-- ===== src/Physical/Boot.antt =====
-- `phys_init_from_handoff` of physical.c: the walk over the memory map and the bitmap after boot.
use xasmos.Base.{
  ℕ, zero, suc, ◌+◌, ◌*◌, ◌-◌, ◌/◌, ◌^◌, ◌≤◌, ◌<◌, ◌≡◌, refl, true, false, ◌⊎◌, Option, some, arith,
  leb, ◌==◌, add64, if_both, Bool-cases, inl, inr,
}
use native.Mathlib.Nat.{add-mul}
use xasmos.Physical.State.{
  PhysBitmap, bit_test, mark_range_free, frame_size, frame_shift, range_end,
}
use xasmos.Physical.Init.{
  XeretHandoff, MemoryDescriptor, ready, is_freeable, add_descriptor, add_map, size_bitmap,
  reserve_fixed, handoff_ok, finish_init, phys_init_from_handoff,
}
use xasmos.Physical.Range.{IsValid, free_loop-Freed}
use xasmos.Physical.Reserve.{
  add_descriptor-IsValid, reserve_fixed-IsValid, reserve_fixed_frees_nothing, reserve_fixed_low,
  size_bitmap-IsValid, size_bitmap_empty, total-reserve_fixed,
}

-- Frame `g` lies in the range of one of the descriptors of the memory map, the `i`th, whose type is
-- usable RAM.
abbrev pub IsUsable : (ℕ → MemoryDescriptor) → ℕ → ℕ → ℕ → Type 0
IsUsable at desc_size map_size g =
    (i : ℕ) × (i * desc_size + desc_size ≤ map_size)
    × (is_freeable (at (i * desc_size)).kind ≡ true)
    × ((at (i * desc_size)).physical_start / frame_size ≤ g)
    × (g < (at (i * desc_size)).physical_start / frame_size + (at (i * desc_size)).number_of_pages)

mark_range_free_only :
    (start pages : ℕ) (p : PhysBitmap) (g : ℕ)
    → bit_test (mark_range_free start pages p) g ≡ true
    → (bit_test p g ≡ true) ⊎ ((start / frame_size ≤ g) × (g < start / frame_size + pages))
unfolding mark_range_free
mark_range_free_only start pages p g =
    if_both
      (λ q.
        bit_test q g ≡ true
        → (bit_test p g ≡ true) ⊎ ((start / frame_size ≤ g) × (g < start / frame_size + pages)))
      (pages == 0) _ _ (λ _. inl)
      (λ _ h. ground (arith, (free_loop-Freed rounds (start / 2 ^ frame_shift) p).bit g))
  where
    rounds : ℕ
    rounds = range_end p (start / 2 ^ frame_shift) pages - start / 2 ^ frame_shift

add_descriptor_only :
    (at : ℕ → MemoryDescriptor) (i ds ms : ℕ) (p : PhysBitmap) (g : ℕ)
    → i * ds + ds ≤ ms
    → bit_test (add_descriptor (at (i * ds)) p) g ≡ true
    → (bit_test p g ≡ true) ⊎ IsUsable at ds ms g
unfolding add_descriptor
add_descriptor_only at i ds ms p g inside =
    let d = at (i * ds) in
    if_both (λ q. bit_test q g ≡ true → (bit_test p g ≡ true) ⊎ IsUsable at ds ms g)
      (is_freeable d.kind) _ _
      (λ usable h. elim (mark_range_free_only d.physical_start d.number_of_pages p g h) [
        | inl old ↦ inl old
        | inr (lo, hi) ↦ inr (i, inside, usable, lo, hi)
      ])
      (λ _. inl)

-- The memory map, walked to its end.
record Walked (at : ℕ → MemoryDescriptor) (ds ms : ℕ) (p : PhysBitmap) (o : Option PhysBitmap)
    : Type 0 where
  result : PhysBitmap
  done : o ≡ some result
  valid : IsValid result
  only : (g : ℕ) → bit_test result g ≡ true → (bit_test p g ≡ true) ⊎ IsUsable at ds ms g

-- The offset of the next descriptor.
next_place :
    (i off ds ms : ℕ)
    → off ≡ i * ds
    → leb (add64 off ds) ms ≡ true
    → ms + ds < 2 ^ 64
    → off ≤ ms
    → add64 off ds ≡ (i + 1) * ds
next_place i off ds ms place more small le = omega (arith, place, add-mul i 1 ds)

add_map-Walked :
    (fuel : ℕ) (at : ℕ → MemoryDescriptor) (i off desc_size map_size : ℕ) (p : PhysBitmap)
    → off ≡ i * desc_size
    → 0 < desc_size
    → map_size + desc_size < 2 ^ 64
    → off ≤ map_size
    → map_size < fuel + off
    → IsValid p
    → Walked at desc_size map_size p (add_map fuel at off desc_size map_size p)
unfolding add_map
add_map-Walked zero at i off ds ms p place pos small le enough v = absurd (omega arith)
add_map-Walked (suc k) at i off ds ms p place pos small le enough v =
    elim (Bool-cases (leb (add64 off ds) ms)) [
      | inr out ↦ record { result = p; done = rw out refl; valid = v; only = λ g. inl }
      | inl more ↦
          let rest =
            add_map-Walked k at (i + 1) (add64 off ds) ds ms (add_descriptor (at off) p)
              (next_place i off ds ms place more small le) pos small (ground arith) (omega arith)
              (add_descriptor-IsValid (at off) p v) in
          record {
            result = rest.result;
            done = rw more rest.done;
            valid = rest.valid;
            only = λ g h. elim (rest.only g h) [
              | inl old ↦
                  add_descriptor_only at i ds ms p g (ground (arith, place)) (rw place at old)
              | inr new ↦ inr new
            ];
          }
    ]

-- The bitmap that boot leaves.
pub record Booted (at : ℕ → MemoryDescriptor) (ds ms : ℕ) (p : PhysBitmap) : Type 0 where
  pub valid : IsValid p
  pub low : (g : ℕ) → g < 256 → g < p.total_frames → bit_test p g ≡ false
  pub only : (g : ℕ) → bit_test p g ≡ true → IsUsable at ds ms g

desc_size_pos : (h : XeretHandoff) → handoff_ok h ≡ true → 0 < h.mmap_desc_size
unfolding handoff_ok
desc_size_pos h ok = ground arith

-- An accepted handoff whose map size does not come within a descriptor of 2^64 ends in a bitmap with
-- exact counters, in which no frame of the first MiB is free and every free frame lies in the range
-- of a descriptor that stands whole in the map, at a multiple of the descriptor size, and has a usable
-- type.
pub phys_init-Booted :
    (h : XeretHandoff) (at : ℕ → MemoryDescriptor)
    → handoff_ok h ≡ true
    → h.mmap_size + h.mmap_desc_size < 2 ^ 64
    → (p : PhysBitmap) × (phys_init_from_handoff (some h) at ≡ ready p)
      × Booted at h.mmap_desc_size h.mmap_size p
unfolding phys_init_from_handoff finish_init
phys_init-Booted h at ok small =
    let w =
      add_map-Walked (h.mmap_size + 1) at 0 0 h.mmap_desc_size h.mmap_size (size_bitmap h.phys_end)
        (omega arith) (desc_size_pos h ok) small (omega arith) (omega arith)
        (size_bitmap-IsValid h.phys_end) in
    let final = reserve_fixed h.fb w.result in
    (
      final,
      rw (ok, w.done) refl,
      record {
        valid = reserve_fixed-IsValid h.fb w.result w.valid;
        low = λ g a b.
            reserve_fixed_low h.fb w.result g a (omega (arith, total-reserve_fixed h.fb w.result));
        only = λ g e. elim (w.only g (reserve_fixed_frees_nothing h.fb w.result g e)) [
          | inl old ↦ ground (arith, size_bitmap_empty h.phys_end g)
          | inr new ↦ new
        ];
      },
    )
