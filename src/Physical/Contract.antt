-- ===== src/Physical/Contract.antt =====
-- The allocators and the release together, and the allocator of huge frames.
use xasmos.Base.{
  ℕ, ◌+◌, ◌/◌, ◌%◌, ◌^◌, ◌≤◌, ◌<◌, ◌≡◌, ◌≢◌, refl, true, false, Option, none, some, arith, ◌∙◌,
  if◌then◌else◌,
}
use xasmos.Bitmap.{count, count-cong}
use xasmos.Physical.State.{PhysBitmap, phys_free_frames, bit_test, frame_size, frames_per_huge}
use xasmos.Physical.Alloc.{taken, scan_huge, phys_alloc_frames, phys_alloc_huge}
use xasmos.Physical.Range.{IsValid, in_range, phys_free_frames-Freed, phys_free_frames-IsValid}
use xasmos.Physical.Scan.{IsFreeRun}
use xasmos.Physical.Huge.{scan_huge-IsFreeRun, scan_huge_complete}
use xasmos.Physical.Laws.{Allocated, taken-Allocated, phys_alloc_frames-Allocated}

-- Bitmaps that are valid and agree on every frame have the same counters.
same_counters :
    (p q : PhysBitmap)
    → IsValid p
    → IsValid q
    → q.total_frames ≡ p.total_frames
    → ((g : ℕ) → bit_test q g ≡ bit_test p g)
    → (q.free_frames ≡ p.free_frames) × (q.used_frames ≡ p.used_frames)
same_counters p q v w e h =
    let c : count p.total_frames q.bits ≡ count p.total_frames p.bits =
      count-cong p.total_frames q.bits p.bits (λ i _. h i) in
    let d : q.free_frames ≡ count p.total_frames q.bits = rw (← e) w.counted in
    (omega (arith, v.counted), omega (arith, v.counted, v.total, w.total))

-- Freeing the frames of an allocation gives back the bitmap, bit for bit, and the counters.
pub free-Allocated :
    (n addr : ℕ) (p q : PhysBitmap)
    → IsValid p
    → Allocated n p addr q
    → let r = phys_free_frames addr n q in
      ((g : ℕ) → bit_test r g ≡ bit_test p g)
      × (r.free_frames ≡ p.free_frames)
      × (r.used_frames ≡ p.used_frames)
      × (r.total_frames ≡ p.total_frames)
      × IsValid r
free-Allocated n addr p q v a =
    let f =
      phys_free_frames-Freed addr n q a.valid a.aligned
        (omega (arith, a.inside, a.now_used.total)) in
    let w = phys_free_frames-IsValid addr n q a.valid in
    let same =
      λ (g : ℕ). back (phys_free_frames addr n q) g (f.bit g) (a.now_used.bit g) (a.was_free g) in
    let counters =
      same_counters p (phys_free_frames addr n q) v w (f.total ∙ a.now_used.total) same in
    (same, counters.0, counters.1, f.total ∙ a.now_used.total, w)
  where
    back :
        (r : PhysBitmap) (g : ℕ)
        → bit_test r g ≡ (if in_range (addr / frame_size) n g then true else bit_test q g)
        → bit_test q g ≡ (if in_range (addr / frame_size) n g then false else bit_test p g)
        → (addr / frame_size ≤ g → g < addr / frame_size + n → bit_test p g ≡ true)
        → bit_test r g ≡ bit_test p g
    back r g a b c = ground arith

-- On a bitmap with exact counters, freeing a successful allocation at once gives back the bitmap,
-- bit for bit, and both counters.
pub phys_free-alloc :
    (n : ℕ) (p : PhysBitmap)
    → IsValid p
    → (phys_alloc_frames n p).0 ≢ 0
    → let (addr, q) = phys_alloc_frames n p in
      let r = phys_free_frames addr n q in
      ((g : ℕ) → bit_test r g ≡ bit_test p g)
      × (r.free_frames ≡ p.free_frames)
      × (r.used_frames ≡ p.used_frames)
phys_free-alloc n p v h =
    let back = free-Allocated n _ p _ v (phys_alloc_frames-Allocated n p v h) in
    (back.0, back.1, back.2)

-- On a bitmap with exact counters a successful huge allocation returns the address, on a 2 MiB
-- boundary, of 512 frames inside the bitmap that were all free, makes exactly these used and
-- charges them to the counters.
pub phys_alloc_huge-Allocated :
    (p : PhysBitmap)
    → IsValid p
    → (phys_alloc_huge p).0 ≢ 0
    → ((phys_alloc_huge p).0 % 2 ^ 21 ≡ 0)
      × Allocated frames_per_huge p (phys_alloc_huge p).0 (phys_alloc_huge p).1
unfolding phys_alloc_huge taken
phys_alloc_huge-Allocated p v = found (scan_huge (p.total_frames + 1) 0 0 0 p) refl
  where
    found :
        (o : Option ℕ)
        → scan_huge (p.total_frames + 1) 0 0 0 p ≡ o
        → (taken o frames_per_huge p).0 ≢ 0
        → ((taken o frames_per_huge p).0 % 2 ^ 21 ≡ 0)
          × Allocated frames_per_huge p (taken o frames_per_huge p).0 (taken o frames_per_huge p).1
    found none e h = absurd (h refl)
    found (some s) e h =
        let r = scan_huge-IsFreeRun (p.total_frames + 1) 0 0 0 s p (λ z. absurd (z refl)) e in
        (omega (arith, r.0), taken-Allocated s frames_per_huge p v r.2 r.1)

-- With exact counters and frame 0 in use, a huge allocation succeeds whenever 512 free frames that
-- begin at a multiple of 512 lie inside the bitmap.
pub phys_alloc_huge_complete :
    (t : ℕ) (p : PhysBitmap)
    → IsValid p
    → bit_test p 0 ≡ false
    → t % frames_per_huge ≡ 0
    → IsFreeRun p t frames_per_huge
    → t + frames_per_huge ≤ p.total_frames
    → (phys_alloc_huge p).0 ≢ 0
unfolding phys_alloc_huge taken
phys_alloc_huge_complete t p v reserved al free h =
    found (scan_huge (p.total_frames + 1) 0 0 0 p) refl
  where
    found :
        (o : Option ℕ)
        → scan_huge (p.total_frames + 1) 0 0 0 p ≡ o
        → (taken o frames_per_huge p).0 ≢ 0
    found none e z =
        scan_huge_complete (p.total_frames + 1) 0 0 0 t p (λ z. absurd (z refl)) e al free h
          (omega arith) (omega arith)
    found (some s) e z =
        let r = scan_huge-IsFreeRun (p.total_frames + 1) 0 0 0 s p (λ z. absurd (z refl)) e in
        let first : s ≡ 0 = omega (arith, r.1, v.fits) in
        ground (arith, r.2 0 (omega arith) (omega arith))

-- While frame 0 is in use, a huge allocation that fails changes nothing.
pub phys_alloc_huge_fails :
    (p : PhysBitmap)
    → IsValid p
    → bit_test p 0 ≡ false
    → (phys_alloc_huge p).0 ≡ 0
    → (phys_alloc_huge p).1 ≡ p
unfolding phys_alloc_huge taken
phys_alloc_huge_fails p v reserved = found (scan_huge (p.total_frames + 1) 0 0 0 p) refl
  where
    found :
        (o : Option ℕ)
        → scan_huge (p.total_frames + 1) 0 0 0 p ≡ o
        → (taken o frames_per_huge p).0 ≡ 0
        → (taken o frames_per_huge p).1 ≡ p
    found none e z = refl
    found (some s) e z =
        let r = scan_huge-IsFreeRun (p.total_frames + 1) 0 0 0 s p (λ z. absurd (z refl)) e in
        let first : s ≡ 0 = omega (arith, r.1, v.fits) in
        absurd (ground (arith, r.2 0 (omega arith) (omega arith)))
