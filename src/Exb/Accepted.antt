-- ===== src/Exb/Accepted.antt =====
-- The loop of `parse_impl` over the segment table, pass by pass.
use xasmos.Base.{
  ℕ, zero, suc, ◌+◌, ◌-◌, ◌*◌, ◌/◌, ◌^◌, ◌≤◌, ◌<◌, ◌≡◌, refl, sym, ap, ◌∙◌, false, arith, ltb, ◌==◌,
  add64, update, Bool-cases, if_both, inl, inr, sum_below, sum_below-cong, sum_below-add_one,
}
use xasmos.Exb.Image.{Image, le32, overlap, passed, ExbSeg, page, max_image_pages, seg_size}
use xasmos.Exb.Parse.{
  Tables, read_seg, seg_vend, check_flags, check_memory, check_file, check_against, Layout, add_seg,
  add_segs,
}
use xasmos.Exb.Segments.{
  le32-lt, reject-passed, then-passed, passed-injective, bind-passed, IsSegment, check_flags_lem,
  check_memory_lem, check_file_lem, check_against_lem,
}

-- The segments accepted so far: each may be mapped, no two meet in memory, and their pages are
-- counted and within the limit.
pub record Accepted (size n : ℕ) (l : Layout) : Type 0 where
  pub each : (i : ℕ) → i < n → IsSegment size (l.segs i)
  pub apart :
      (i j : ℕ)
      → i < j
      → j < n
      → overlap (l.segs j).vaddr (seg_vend (l.segs j)) (l.segs i).vaddr (seg_vend (l.segs i))
        ≡ false
  pub pages : l.total_pages ≡ sum_below n (λ i. (l.segs i).pages)
  pub few : l.total_pages ≤ max_image_pages

-- What an accepted segment has passed.
record Passed (img : Image) (size : ℕ) (t : Tables) (i : ℕ) (s : ExbSeg) (l l' : Layout)
    : Type 0 where
  segment : IsSegment size s
  total : l'.total_pages ≡ l.total_pages + s.pages
  segs : l'.segs ≡ update l.segs i s
  few : l.total_pages + s.pages ≤ max_image_pages
  against : check_against i 0 l.segs s ≡ passed tt

pages-read_seg :
    (img : Image) (p : ℕ)
    → (read_seg img p).pages ≡ add64 (read_seg img p).mem_size (page - 1) / page
unfolding read_seg
pages-read_seg img p = refl

small-read_seg :
    (img : Image) (p : ℕ)
    → ((read_seg img p).file_off < 2 ^ 32) × ((read_seg img p).file_size < 2 ^ 32)
unfolding read_seg
small-read_seg img p = (le32-lt img (p + 16), le32-lt img (p + 20))

add_seg-Passed :
    (img : Image) (size : ℕ) (t : Tables) (i : ℕ) (l l' : Layout)
    → l.total_pages ≤ max_image_pages
    → add_seg img size t i l ≡ passed l'
    → Passed img size t i (read_seg img (t.seg_off + i * seg_size)) l l'
unfolding add_seg
add_seg-Passed img size t i l l' few h =
    let p = t.seg_off + i * seg_size in
    let s = read_seg img p in
    let a = then-passed (check_flags (le32 img (p + 28)) s.flags) _ h in
    let b = then-passed (check_memory s) _ a.1 in
    let c = then-passed (check_file t size s) _ b.1 in
    let d = reject-passed (ltb max_image_pages (add64 l.total_pages s.pages)) _ _ c.1 in
    let e = then-passed (check_against i 0 l.segs s) _ d.1 in
    let written : record { total_pages = add64 l.total_pages s.pages; segs = update l.segs i s }
        ≡ l' =
      passed-injective e.1 in
    let fl = check_flags_lem (le32 img (p + 28)) s.flags a.0 in
    let me = check_memory_lem s (pages-read_seg img p) b.0 in
    let fi = check_file_lem t size s (small-read_seg img p).0 (small-read_seg img p).1 c.0 in
    let exact : add64 l.total_pages s.pages ≡ l.total_pages + s.pages = omega (arith, me) in
    record {
      segment = record {
        readable = fl.0;
        known = fl.1;
        exclusive = fl.2;
        aligned = me.0;
        above = me.1;
        below = me.2;
        occupied = me.3;
        covered = me.4;
        tight = me.5;
        file_le = fi.0;
        file_in = fi.1;
        end_exact = me.6;
      };
      total = sym (ap (λ (m : Layout). m.total_pages) written) ∙ exact;
      segs = sym (ap (λ (m : Layout). m.segs) written);
      few = ground (arith, d.0, exact);
      against = e.0;
    }

add_seg-Accepted :
    (img : Image) (size : ℕ) (t : Tables) (i : ℕ) (l l' : Layout)
    → Accepted size i l
    → add_seg img size t i l ≡ passed l'
    → Accepted size (i + 1) l'
add_seg-Accepted img size t i l l' v h =
    let q = add_seg-Passed img size t i l l' v.few h in
    let s = read_seg img (t.seg_off + i * seg_size) in
    let at : (j : ℕ) → l'.segs j ≡ update l.segs i s j = λ j k. q.segs k j in
    let old : (j : ℕ) → j < i → l'.segs j ≡ l.segs j = λ j p. ground (arith, at j) in
    let new : l'.segs i ≡ s = ground (arith, at i) in
    let before : sum_below i (λ j. (l'.segs j).pages) ≡ sum_below i (λ j. (l.segs j).pages) =
      sum_below-cong i _ _ (λ j p. ap (λ (g : ExbSeg). g.pages) (old j p)) in
    record {
      each = λ j p. rw (at j) (
          if_both (IsSegment size) (j == i) s (l.segs j) (λ _. q.segment)
            (λ e. v.each j (ground arith)));
      apart = λ j k lt p. elim (Bool-cases (k == i)) [
        | inl e ↦
            let e' : k ≡ i = ground arith in
            rw (e', new, old j (omega arith))
              (check_against_lem i 0 j l.segs s q.against (omega arith) (omega arith))
        | inr e ↦
            let e' : k < i = ground arith in rw (old k e', old j (omega arith)) (v.apart j k lt e')
      ];
      pages = rw (q.total, v.pages, sum_below-add_one i (λ j. (l'.segs j).pages), before, new) refl;
      few = omega (arith, q.total, q.few);
    }

pub add_segs-Accepted :
    (n i m : ℕ) (img : Image) (size : ℕ) (t : Tables) (l l' : Layout)
    → i + n ≡ m
    → Accepted size i l
    → add_segs n i img size t l ≡ passed l'
    → Accepted size m l'
unfolding add_segs
add_segs-Accepted zero i m img size t l l' e v h =
    let e' : m ≡ i = omega arith in rw (e', ← passed-injective h) v
add_segs-Accepted (suc n) i m img size t l l' e v h =
    let (l1, h1, h2) = bind-passed (add_seg img size t i l) _ h in
    add_segs-Accepted n (i + 1) m img size t l1 l' (omega arith)
      (add_seg-Accepted img size t i l l1 v h1) h2
