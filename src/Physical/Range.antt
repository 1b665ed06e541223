-- ===== src/Physical/Range.antt =====
-- The operations of physical.c on a range of frames: marking, freeing and reserving.
use xasmos.Base.{
  ℕ, zero, suc, ◌+◌, ◌-◌, ◌*◌, ◌/◌, ◌%◌, ◌^◌, ◌≤◌, ◌<◌, ◌≡◌, refl, Bool, true, false, ◌&&◌, ◌||◌,
  not, arith, ltb, leb, ◌==◌, if◌then◌else◌, add64, for_up, if_both, ◌∙◌,
}
use xasmos.Bitmap.{mark, count, test-mark, test-clear, count-mark, count-clear, count-le}
use xasmos.Physical.State.{
  PhysBitmap, bit_test, free_frame, use_frame, mark_range_free, mark_range_used, phys_free_frames,
  phys_reserve_range, bitmap_max_frames, frame_shift, frame_size, range_end,
}

-- The counters count the bits, and the bitmap is no larger than its storage.
pub record IsValid (p : PhysBitmap) : Type 0 where
  pub counted : p.free_frames ≡ count p.total_frames p.bits
  pub total : p.free_frames + p.used_frames ≡ p.total_frames
  pub fits : p.total_frames ≤ bitmap_max_frames

pub free_frame-IsValid :
    (f : ℕ) (p : PhysBitmap) → f < p.total_frames → IsValid p → IsValid (free_frame f p)
unfolding free_frame
free_frame-IsValid f p h v = ground (
  arith,
  count-mark p.total_frames f p.bits h,
  count-le p.total_frames p.bits,
  count-le p.total_frames (mark p.bits f),
)

pub use_frame-IsValid :
    (f : ℕ) (p : PhysBitmap) → f < p.total_frames → IsValid p → IsValid (use_frame f p)
unfolding use_frame
use_frame-IsValid f p h v =
    ground (arith, count-clear p.total_frames f p.bits h, count-le p.total_frames p.bits)

pub test-free_frame :
    (f g : ℕ) (p : PhysBitmap)
    → bit_test (free_frame f p) g ≡ (if g == f then true else bit_test p g)
unfolding free_frame
test-free_frame f g p = ground (arith, test-mark p.bits f g)

pub test-use_frame :
    (f g : ℕ) (p : PhysBitmap)
    → bit_test (use_frame f p) g ≡ (if g == f then false else bit_test p g)
unfolding use_frame
test-use_frame f g p = ground (arith, test-clear p.bits f g)

pub total-free_frame : (f : ℕ) (p : PhysBitmap) → (free_frame f p).total_frames ≡ p.total_frames
unfolding free_frame
total-free_frame f p = ground arith

end-free_frame : (f : ℕ) (p : PhysBitmap) → (free_frame f p).phys_end ≡ p.phys_end
unfolding free_frame
end-free_frame f p = ground arith

total-use_frame : (f : ℕ) (p : PhysBitmap) → (use_frame f p).total_frames ≡ p.total_frames
unfolding use_frame
total-use_frame f p = ground arith

end-use_frame : (f : ℕ) (p : PhysBitmap) → (use_frame f p).phys_end ≡ p.phys_end
unfolding use_frame
end-use_frame f p = ground arith

-- Whether `f` is one of the `n` frames from `i` on.
abbrev pub in_range : ℕ → ℕ → ℕ → Bool
in_range i n f = leb i f && ltb f (i + n)

-- What a loop of `free_frame` over `n` frames from `i` on does to the bits and to the counters.
pub record Freed (i n : ℕ) (p q : PhysBitmap) : Type 0 where
  pub bit : (g : ℕ) → bit_test q g ≡ (if in_range i n g then true else bit_test p g)
  pub total : q.total_frames ≡ p.total_frames
  pub end : q.phys_end ≡ p.phys_end

pub record Used (i n : ℕ) (p q : PhysBitmap) : Type 0 where
  pub bit : (g : ℕ) → bit_test q g ≡ (if in_range i n g then false else bit_test p g)
  pub total : q.total_frames ≡ p.total_frames
  pub end : q.phys_end ≡ p.phys_end

pub free_loop-Freed : (n i : ℕ) (p : PhysBitmap) → Freed i n p (for_up n i free_frame p)
unfolding for_up
free_loop-Freed zero i p = record { bit = λ g. ground arith; total = refl; end = refl }
free_loop-Freed (suc n) i p =
    let rest = free_loop-Freed n (i + 1) (free_frame i p) in
    record {
      bit = λ g. ground (arith, rest.bit g, test-free_frame i g p);
      total = rest.total ∙ total-free_frame i p;
      end = rest.end ∙ end-free_frame i p;
    }

pub use_loop-Used : (n i : ℕ) (p : PhysBitmap) → Used i n p (for_up n i use_frame p)
unfolding for_up
use_loop-Used zero i p = record { bit = λ g. ground arith; total = refl; end = refl }
use_loop-Used (suc n) i p =
    let rest = use_loop-Used n (i + 1) (use_frame i p) in
    record {
      bit = λ g. ground (arith, rest.bit g, test-use_frame i g p);
      total = rest.total ∙ total-use_frame i p;
      end = rest.end ∙ end-use_frame i p;
    }

free_loop-IsValid :
    (n i : ℕ) (p : PhysBitmap)
    → n ≤ p.total_frames - i
    → IsValid p
    → IsValid (for_up n i free_frame p)
unfolding for_up
free_loop-IsValid zero i p h v = v
free_loop-IsValid (suc n) i p h v =
    free_loop-IsValid n (i + 1) (free_frame i p) (omega (arith, total-free_frame i p))
      (free_frame-IsValid i p (omega arith) v)

use_loop-IsValid :
    (n i : ℕ) (p : PhysBitmap)
    → n ≤ p.total_frames - i
    → IsValid p
    → IsValid (for_up n i use_frame p)
unfolding for_up
use_loop-IsValid zero i p h v = v
use_loop-IsValid (suc n) i p h v =
    use_loop-IsValid n (i + 1) (use_frame i p) (omega (arith, total-use_frame i p))
      (use_frame-IsValid i p (omega arith) v)

-- Every operation on a range keeps the counters exact, whatever range it is given.
pub mark_range_free-IsValid :
    (start pages : ℕ) (p : PhysBitmap) → IsValid p → IsValid (mark_range_free start pages p)
unfolding mark_range_free
mark_range_free-IsValid start pages p v =
    if_both IsValid (pages == 0) _ _ (λ _. v)
      (λ _. free_loop-IsValid _ (start / 2 ^ frame_shift) p (ground arith) v)

-- Marking a range as used keeps the counters exact: the free and the used frames add up to the
-- total, and the free ones are the set bits.
pub mark_range_used-IsValid :
    (start bytes : ℕ) (p : PhysBitmap) → IsValid p → IsValid (mark_range_used start bytes p)
unfolding mark_range_used
mark_range_used-IsValid start bytes p v =
    if_both IsValid (bytes == 0) _ _ (λ _. v)
      (λ _. use_loop-IsValid _ (start / 2 ^ frame_shift) p (ground arith) v)

pub phys_free_frames-IsValid :
    (addr n : ℕ) (p : PhysBitmap) → IsValid p → IsValid (phys_free_frames addr n p)
unfolding phys_free_frames
phys_free_frames-IsValid addr n p v =
    if_both IsValid ((n == 0) || not (addr % frame_size == 0)) _ _ (λ _. v)
      (λ _.
        if_both IsValid (ltb p.total_frames (add64 (addr / 2 ^ frame_shift) n)) _ _ (λ _. v)
          (λ e. free_loop-IsValid _ (addr / 2 ^ frame_shift) p (ground arith) v))

-- On a bitmap with exact counters, given a frame-aligned address and a range inside the bitmap,
-- `phys_free_frames` makes exactly the frames of the range free.
pub phys_free_frames-Freed :
    (addr n : ℕ) (p : PhysBitmap)
    → IsValid p
    → addr % frame_size ≡ 0
    → addr / frame_size + n ≤ p.total_frames
    → Freed (addr / frame_size) n p (phys_free_frames addr n p)
unfolding phys_free_frames
phys_free_frames-Freed addr n p v aligned inside =
    if_both Out ((n == 0) || not (addr % frame_size == 0)) _ _
      (λ e. record { bit = λ g. ground arith; total = refl; end = refl })
      (λ _.
        if_both Out (ltb p.total_frames (add64 (addr / 2 ^ frame_shift) n)) _ _
          (λ e. absurd (ground arith)) (λ _. rw rounds (free_loop-Freed n (addr / frame_size) p)))
  where
    Out : PhysBitmap → Type 0
    Out = Freed (addr / frame_size) n p

    rounds : add64 (addr / 2 ^ frame_shift) n - addr / 2 ^ frame_shift ≡ n
    rounds = omega arith

-- Whether the bytes from `addr` to `addr + size` meet frame `g`.
abbrev pub touches : ℕ → ℕ → ℕ → Bool
touches addr size g = ltb addr (g * frame_size + frame_size) && ltb (g * frame_size) (addr + size)

-- For a range that begins on a frame boundary and ends at least a frame below 2^64: after its
-- reservation no frame of the bitmap that the range touches is free, and every other one is as
-- before.
pub bit_test-phys_reserve_range :
    (addr size : ℕ) (p : PhysBitmap) (g : ℕ)
    → addr % frame_size ≡ 0
    → addr + size + frame_size ≤ 2 ^ 64
    → g < p.total_frames
    → bit_test (phys_reserve_range addr size p) g
      ≡ (if touches addr size g then false else bit_test p g)
unfolding phys_reserve_range
bit_test-phys_reserve_range addr size p g aligned small inside =
    if_both (λ q. bit_test q g ≡ (if touches addr size g then false else bit_test p g)) (size == 0)
      _ _ (λ e. ground arith)
      (λ e. ground (arith, (use_loop-Used rounds (addr / 2 ^ frame_shift) p).bit g))
  where
    rounds : ℕ
    rounds =
        range_end p (addr / 2 ^ frame_shift) (add64 size (frame_size - 1) / 2 ^ frame_shift)
        - addr / 2 ^ frame_shift
