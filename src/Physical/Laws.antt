-- ===== src/Physical/Laws.antt =====
-- What `phys_alloc_frames` and `phys_alloc_huge` promise.
use xasmos.Base.{
  ℕ, zero, suc, ◌+◌, ◌*◌, ◌/◌, ◌%◌, ◌^◌, ◌≤◌, ◌<◌, ◌≡◌, ◌≢◌, refl, false, Option, none, some, arith,
  ltb, ◌==◌, if_both, for_up,
}
use xasmos.Bitmap.{count, test-clear, count-clear}
use xasmos.Physical.State.{PhysBitmap, bit_test, bit_clear, frame_size}
use xasmos.Physical.Alloc.{scan, take_run, taken, phys_alloc_frames}
use xasmos.Physical.Range.{IsValid, Used}
use xasmos.Physical.Scan.{IsFreeRun, scan-IsFreeRun, scan_complete}

-- What the loop that clears the bits of a run leaves alone, and the bits that it leaves set.
record Cleared (i n : ℕ) (p q : PhysBitmap) : Type 0 where
  used : Used i n p q
  free_same : q.free_frames ≡ p.free_frames
  used_same : q.used_frames ≡ p.used_frames

clear_loop-Cleared :
    (n i : ℕ) (p : PhysBitmap) → Cleared i n p (for_up n i (λ i r. bit_clear r i) p)
unfolding for_up
clear_loop-Cleared zero i p = record {
  used = record { bit = λ g. ground arith; total = refl; end = refl };
  free_same = refl;
  used_same = refl;
}
clear_loop-Cleared (suc n) i p =
    let rest = clear_loop-Cleared n (i + 1) (bit_clear p i) in
    record {
      used = record {
        bit = λ g. ground (arith, rest.used.bit g, test-clear p.bits i g);
        total = rest.used.total;
        end = rest.used.end;
      };
      free_same = rest.free_same;
      used_same = rest.used_same;
    }

-- Clearing a run of free frames takes its length off the count of free frames.
clear_loop-count :
    (n i : ℕ) (p : PhysBitmap)
    → IsFreeRun p i n
    → i + n ≤ p.total_frames
    → count p.total_frames (for_up n i (λ i r. bit_clear r i) p).bits + n
      ≡ count p.total_frames p.bits
unfolding for_up
clear_loop-count zero i p free h = omega arith
clear_loop-count (suc n) i p free h = omega (
  arith,
  clear_loop-count n (i + 1) (bit_clear p i)
      (λ g a b. ground (arith, test-clear p.bits i g, free g)) (omega arith),
  count-clear p.total_frames i p.bits (omega arith) (free i (omega arith) (omega arith)),
)

pub take_run-Used : (start n : ℕ) (p : PhysBitmap) → Used start n p (take_run start n p)
unfolding take_run
take_run-Used start n p =
    let c = clear_loop-Cleared n start p in
    record { bit = c.used.bit; total = c.used.total; end = c.used.end }

pub take_run-IsValid :
    (start n : ℕ) (p : PhysBitmap)
    → IsValid p
    → IsFreeRun p start n
    → start + n ≤ p.total_frames
    → IsValid (take_run start n p) × ((take_run start n p).free_frames + n ≡ p.free_frames)
unfolding take_run
take_run-IsValid start n p v free h =
    let c = clear_loop-Cleared n start p in
    let k = clear_loop-count n start p free h in
    (
      record {
        counted = rw c.used.total (omega (arith, k, c.free_same));
        total = omega (arith, k, c.free_same, c.used_same, c.used.total);
        fits = omega (arith, c.used.total);
      },
      omega (arith, k, c.free_same),
    )

-- What an allocation of `n` frames at the address `addr` has done.
pub record Allocated (n : ℕ) (p : PhysBitmap) (addr : ℕ) (q : PhysBitmap) : Type 0 where
  pub aligned : addr % frame_size ≡ 0
  pub inside : addr / frame_size + n ≤ p.total_frames
  pub was_free : IsFreeRun p (addr / frame_size) n
  pub now_used : Used (addr / frame_size) n p q
  pub paid : q.free_frames + n ≡ p.free_frames
  pub valid : IsValid q

pub taken-Allocated :
    (start n : ℕ) (p : PhysBitmap)
    → IsValid p
    → IsFreeRun p start n
    → start + n ≤ p.total_frames
    → Allocated n p (start * frame_size % 2 ^ 64) (take_run start n p)
taken-Allocated start n p v free h =
    let back : start * frame_size % 2 ^ 64 / frame_size ≡ start = omega (arith, v.fits) in
    record {
      aligned = omega arith;
      inside = omega arith;
      was_free = rw back free;
      now_used = rw back (take_run-Used start n p);
      paid = (take_run-IsValid start n p v free h).1;
      valid = (take_run-IsValid start n p v free h).0;
    }

-- On a bitmap with exact counters a successful allocation returns the aligned address of `n`
-- frames that lie inside the bitmap and were all free, makes exactly these used, charges exactly
-- `n` to the counters and keeps them exact.
pub phys_alloc_frames-Allocated :
    (n : ℕ) (p : PhysBitmap)
    → IsValid p
    → (phys_alloc_frames n p).0 ≢ 0
    → Allocated n p (phys_alloc_frames n p).0 (phys_alloc_frames n p).1
unfolding phys_alloc_frames taken
phys_alloc_frames-Allocated n p v =
    if_both Out (n == 0) _ _ (λ _ h. absurd (h refl))
      (λ _.
        if_both Out (ltb p.free_frames n) _ _ (λ _ h. absurd (h refl))
          (λ _. found (scan p.total_frames 0 n 0 0 p) refl))
  where
    Out : ℕ × PhysBitmap → Type 0
    Out r = r.0 ≢ 0 → Allocated n p r.0 r.1

    found : (o : Option ℕ) → scan p.total_frames 0 n 0 0 p ≡ o → Out (taken o n p)
    found none e h = absurd (h refl)
    found (some s) e h =
        let r = scan-IsFreeRun p.total_frames 0 n 0 0 s p (λ z. absurd (z refl)) e in
        taken-Allocated s n p v r.1 (omega (arith, r.0))

-- The scan does not return frame 0 while it is in use, so the address of a run is not 0.
address-ne-zero :
    (n s : ℕ) (p : PhysBitmap)
    → IsValid p
    → bit_test p 0 ≡ false
    → n ≢ 0
    → scan p.total_frames 0 n 0 0 p ≡ some s
    → s * frame_size % 2 ^ 64 ≢ 0
address-ne-zero n s p v reserved pos e h =
    let r = scan-IsFreeRun p.total_frames 0 n 0 0 s p (λ z. absurd (z refl)) e in
    let first : s ≡ 0 = omega (arith, r.0, v.fits) in
    ground (arith, r.1 0 (omega arith) (omega arith))

-- With exact counters and frame 0 in use, an allocation that fails changes nothing.
pub phys_alloc_frames_fails :
    (n : ℕ) (p : PhysBitmap)
    → IsValid p
    → bit_test p 0 ≡ false
    → (phys_alloc_frames n p).0 ≡ 0
    → (phys_alloc_frames n p).1 ≡ p
unfolding phys_alloc_frames taken
phys_alloc_frames_fails n p v reserved =
    if_both Out (n == 0) _ _ (λ _ _. refl)
      (λ pos.
        if_both Out (ltb p.free_frames n) _ _ (λ _ _. refl)
          (λ _. found (ground arith) (scan p.total_frames 0 n 0 0 p) refl))
  where
    Out : ℕ × PhysBitmap → Type 0
    Out r = r.0 ≡ 0 → r.1 ≡ p

    found : n ≢ 0 → (o : Option ℕ) → scan p.total_frames 0 n 0 0 p ≡ o → Out (taken o n p)
    found pos none e h = refl
    found pos (some s) e h = absurd (address-ne-zero n s p v reserved pos e h)

-- With exact counters and frame 0 in use, an allocation of one frame or more succeeds whenever a
-- run of that many free frames lies inside the bitmap.
pub phys_alloc_frames_complete :
    (n t : ℕ) (p : PhysBitmap)
    → IsValid p
    → bit_test p 0 ≡ false
    → 0 < n
    → IsFreeRun p t n
    → t + n ≤ p.total_frames
    → (phys_alloc_frames n p).0 ≢ 0
unfolding phys_alloc_frames taken
phys_alloc_frames_complete n t p v reserved pos free h =
    if_both Out (n == 0) _ _ (λ e _. ground arith)
      (λ _.
        if_both Out (ltb p.free_frames n) _ _ (λ e _. ground (arith, clear_loop-count n t p free h))
          (λ _. found (scan p.total_frames 0 n 0 0 p) refl))
  where
    Out : ℕ × PhysBitmap → Type 0
    Out r = r.0 ≢ 0

    found : (o : Option ℕ) → scan p.total_frames 0 n 0 0 p ≡ o → Out (taken o n p)
    found none e z = scan_complete p.total_frames 0 n 0 0 t p e free (omega arith) (omega arith) pos
    found (some s) e z = address-ne-zero n s p v reserved (omega arith) e z
