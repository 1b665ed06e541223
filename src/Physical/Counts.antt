-- ===== src/Physical/Counts.antt =====
-- The counters of physical.c when a range of frames is freed.
use xasmos.Base.{ℕ, zero, suc, ◌+◌, ◌≤◌, ◌<◌, ◌≡◌, false, arith, for_up, sym, ◌∙◌}
use xasmos.Bitmap.{count, count-mark, count-cong}
use xasmos.Physical.State.{PhysBitmap, bit_test, free_frame}
use xasmos.Physical.Range.{IsValid, Freed, free_loop-Freed, test-free_frame, total-free_frame}

free_frame-count :
    (f : ℕ) (p : PhysBitmap)
    → f < p.total_frames
    → bit_test p f ≡ false
    → count p.total_frames (free_frame f p).bits ≡ count p.total_frames p.bits + 1
unfolding free_frame
free_frame-count f p h e = ground (arith, count-mark p.total_frames f p.bits h e)

-- Freeing a range of used frames adds its length to the count of free frames.
pub free_loop-count :
    (n i : ℕ) (p : PhysBitmap)
    → ((g : ℕ) → i ≤ g → g < i + n → bit_test p g ≡ false)
    → i + n ≤ p.total_frames
    → count p.total_frames (for_up n i free_frame p).bits ≡ count p.total_frames p.bits + n
unfolding for_up
free_loop-count zero i p used h = omega arith
free_loop-count (suc n) i p used h =
    let rest =
      free_loop-count n (i + 1) (free_frame i p)
        (λ g a b. ground (arith, test-free_frame i g p, used g))
        (omega (arith, total-free_frame i p)) in
    let first = free_frame-count i p (omega arith) (used i (omega arith) (omega arith)) in
    let same = total-free_frame i p in ground (arith, rest, first, same)

-- Freeing a range of used frames adds its length to the counter of free frames.
pub free_frames-Freed :
    (i n : ℕ) (p q : PhysBitmap)
    → IsValid p
    → IsValid q
    → Freed i n p q
    → ((g : ℕ) → i ≤ g → g < i + n → bit_test p g ≡ false)
    → i + n ≤ p.total_frames
    → q.free_frames ≡ p.free_frames + n
free_frames-Freed i n p q v w f used h =
    let loop = free_loop-Freed n i p in
    let same : count p.total_frames q.bits ≡ count p.total_frames (for_up n i free_frame p).bits =
      count-cong p.total_frames q.bits (for_up n i free_frame p).bits
        (λ g _. f.bit g ∙ sym (loop.bit g)) in
    let counted : q.free_frames ≡ count p.total_frames q.bits = rw (← f.total) w.counted in
    omega (arith, same, counted, v.counted, free_loop-count n i p used h)
