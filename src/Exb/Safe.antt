-- ===== src/Exb/Safe.antt =====
-- What an image that `exb_parse` accepts may ask for, and what it leaves behind when it refuses one.
use xasmos.Base.{
  ℕ, ◌*◌, ◌≤◌, ◌<◌, ◌≡◌, refl, sym, ap, Bool, true, false, not, ◌||◌, arith, ltb, ◌==◌, Option,
  none, some, sum_below,
}
use xasmos.Exb.Image.{
  Image, byte_at, le16, le32, le64, bad_magic, bad_version, bad_header, bad_kind, bad_target, Error,
  Checked, passed, rejected, reject_if, ExbInfo, zero_out, page, max_segs, bad_segtab, bad_entry,
  default_stack_pages, exb_crc32_image, header_size, max_file, bad_size, bad_crc,
}
use xasmos.Exb.Parse.{
  any_nonzero, Tables, Layout, Caps, read_tables, check_header, check_tables, add_segs, add_caps,
  entry_ok, holds_entry, parse_impl, reported, exb_parse,
}
use xasmos.Exb.Segments.{reject-passed, then-passed, passed-injective, bind-passed}
use xasmos.Exb.Accepted.{Accepted, add_segs-Accepted}
use xasmos.Exb.Caps.{IsStack, add_caps-IsStack, entry_ok-holds}

-- What the kernel maps for an accepted image: from one to eight segments, each of which may be
-- mapped, no two of which meet, with the pages counted and within the limit; a stack of whole
-- pages; and an entry point in the file data of an executable segment.
pub record IsLoadable (size : ℕ) (info : ExbInfo) : Type 0 where
  pub some_seg : 0 < info.seg_count
  pub few_segs : info.seg_count ≤ max_segs
  pub segments :
      Accepted size info.seg_count (record { total_pages = info.image_pages; segs = info.seg })
  pub entry_held : (i : ℕ) × (i < info.seg_count) × (holds_entry (info.seg i) info.entry ≡ true)
  pub stack : IsStack info.stack_bytes

none-Accepted : (size : ℕ) (l : Layout) → l.total_pages ≡ 0 → Accepted size 0 l
unfolding sum_below
none-Accepted size l e = record {
  each = λ i p. absurd (omega arith);
  apart = λ i j p q. absurd (omega arith);
  pages = e;
  few = omega (arith, e);
}

-- What a successful `parse_impl` went through.
record Parsed (img : Image) (size : ℕ) (out info : ExbInfo) : Type 0 where
  layout : Layout
  caps : Caps
  header : check_header img size ≡ passed tt
  tables : check_tables (read_tables img) size ≡ passed tt
  placed :
      add_segs
        (read_tables img).seg_cnt
        0
        img
        size
        (read_tables img)
        (record { total_pages = 0; segs = out.seg })
      ≡ passed layout
  started : entry_ok (read_tables img).seg_cnt layout.segs (le64 img 16) ≡ true
  capped :
      add_caps (read_tables img).cap_cnt 0 img (read_tables img) (record {
        seen_stack = false;
        seen_heap = false;
        seen_tokens = false;
        stack_bytes = default_stack_pages * page;
        heap_frames = out.heap_frames;
        extra_tokens = out.extra_tokens;
      })
      ≡ passed caps
  result : info ≡ record {
    entry = le64 img 16;
    seg_count = (read_tables img).seg_cnt;
    seg = layout.segs;
    image_pages = layout.total_pages;
    stack_bytes = caps.stack_bytes;
    heap_frames = caps.heap_frames;
    extra_tokens = caps.extra_tokens;
  }

parse_impl-Parsed :
    (img : Image) (size : ℕ) (out info : ExbInfo)
    → parse_impl (some img) size out ≡ passed info
    → Parsed img size out info
unfolding parse_impl
parse_impl-Parsed img size out info h =
    let t = read_tables img in
    let a = then-passed (check_header img size) _ h in
    let b = then-passed (check_tables t size) _ a.1 in
    let (l, hl, c) = bind-passed (add_segs t.seg_cnt 0 img size t _) _ b.1 in
    let d = reject-passed (not (entry_ok t.seg_cnt l.segs (le64 img 16))) bad_entry _ c in
    let (k, hk, e) = bind-passed (add_caps t.cap_cnt 0 img t _) _ d.1 in
    record {
      layout = l;
      caps = k;
      header = a.0;
      tables = b.0;
      placed = hl;
      started = ground (arith, d.0);
      capped = hk;
      result = sym (passed-injective e);
    }

-- The file is as long as its header says and its checksum is right.
pub record IsIntact (img : Image) (size : ℕ) : Type 0 where
  pub least : header_size ≤ size
  pub most : size ≤ max_file
  pub length : le32 img 24 ≡ size
  pub checksum : le32 img 28 ≡ exb_crc32_image img size
  pub user : byte_at img 48 ≡ 0

reject-false : (b : Bool) (e : Error) {u : Unit {0}} → reject_if b e ≡ passed u → b ≡ false
reject-false true e h = absurd (cc)
reject-false false e h = refl

check_header-IsIntact :
    (img : Image) (size : ℕ) → check_header img size ≡ passed tt → IsIntact img size
unfolding check_header
check_header-IsIntact img size h =
    let a = reject-passed (ltb size header_size || ltb max_file size) bad_size _ h in
    let b =
      reject-passed
        (not (byte_at img 0 == 0x7F)
          || not (byte_at img 1 == b'E')
          || not (byte_at img 2 == b'X')
          || not (byte_at img 3 == b'B'))
        bad_magic _ a.1 in
    let c =
      reject-passed (not (byte_at img 4 == 1) || not (byte_at img 5 == 1)) bad_version _ b.1 in
    let d = reject-passed (not (le16 img 6 == header_size)) bad_header _ c.1 in
    let e = reject-passed (not (le32 img 8 == 0)) bad_header _ d.1 in
    let f = reject-passed (any_nonzero 15 49 img) bad_header _ e.1 in
    let g = reject-passed (not (byte_at img 48 == 0)) bad_kind _ f.1 in
    let i = reject-passed (not (le32 img 12 == 1)) bad_target _ g.1 in
    let j = reject-passed (not (le32 img 24 == size)) bad_size _ i.1 in
    let k = reject-false (not (le32 img 28 == exb_crc32_image img size)) bad_crc j.1 in
    record {
      least = ground (arith, a.0);
      most = ground (arith, a.0);
      length = ground (arith, j.0);
      checksum = ground (arith, k);
      user = ground (arith, g.0);
    }

check_tables_lem :
    (t : Tables) (size : ℕ)
    → check_tables t size ≡ passed tt
    → (0 < t.seg_cnt) × (t.seg_cnt ≤ max_segs)
unfolding check_tables
check_tables_lem t size h =
    let a = reject-passed (ltb t.seg_cnt 1 || ltb max_segs t.seg_cnt) bad_segtab _ h in
    ground (arith, a.0)

Parsed-IsLoadable :
    (img : Image) (size : ℕ) (out info : ExbInfo) → Parsed img size out info → IsLoadable size info
Parsed-IsLoadable img size out info q =
    let t = read_tables img in
    let few = check_tables_lem t size q.tables in
    rw q.result (record {
      some_seg = few.0;
      few_segs = few.1;
      segments =
          add_segs-Accepted t.seg_cnt 0 t.seg_cnt img size t _ q.layout (omega arith)
            (none-Accepted size _ refl) q.placed;
      entry_held = entry_ok-holds t.seg_cnt q.layout.segs (le64 img 16) q.started;
      stack =
          add_caps-IsStack t.cap_cnt 0 img t _ q.caps
            (record { whole = refl; least = omega arith; most = omega arith }) q.capped;
    })

reported-passed :
    (r : Checked ExbInfo) (info : ExbInfo) → reported r ≡ (none, info) → r ≡ passed info
unfolding reported
reported-passed (passed i) info h = ap passed (ap (λ (r : Option Error × ExbInfo). r.1) h)
reported-passed (rejected e) info h =
    absurd (let k : some e ≡ none = ap (λ (r : Option Error × ExbInfo). r.0) h in cc)

reported-rejected :
    (r : Checked ExbInfo) (e : Error) → (reported r).0 ≡ some e → (reported r).1 ≡ zero_out
unfolding reported
reported-rejected (passed i) e h = absurd (cc)
reported-rejected (rejected x) e h = refl

-- An image that `exb_parse` accepts is as long as its header says, with the right checksum and the
-- user kind. It has from one to eight segments, each readable, never both writable and executable,
-- page aligned in the user range, with the pages its memory needs and its data inside the file; no
-- two of them meet in memory, and their pages add up to `image_pages`, at most 4096. The entry point
-- lies in the file data of an executable segment, and the stack has from one to 64 whole pages.
pub exb_parse_safe :
    (img : Image) (size : ℕ) (out info : ExbInfo)
    → exb_parse (some img) size out ≡ (none, info)
    → IsIntact img size × IsLoadable size info
unfolding exb_parse
exb_parse_safe img size out info h =
    let q =
      parse_impl-Parsed img size out info
        (reported-passed (parse_impl (some img) size out) info h) in
    (check_header-IsIntact img size q.header, Parsed-IsLoadable img size out info q)

-- Whatever the error, an `exb_parse` that fails leaves the output zeroed.
pub exb_parse_fails :
    (image : Option Image) (size : ℕ) (out : ExbInfo) (e : Error)
    → (exb_parse image size out).0 ≡ some e
    → (exb_parse image size out).1 ≡ zero_out
unfolding exb_parse
exb_parse_fails image size out e h = reported-rejected (parse_impl image size out) e h

-- An accepted image without a capability table leaves `extra_tokens` and `heap_frames` as the
-- caller's structure held them before the call: they are not set to zero.
pub stale_requests :
    (img : Image) (size : ℕ) (out info : ExbInfo)
    → le32 img 44 ≡ 0
    → exb_parse (some img) size out ≡ (none, info)
    → (info.extra_tokens ≡ out.extra_tokens) × (info.heap_frames ≡ out.heap_frames)
unfolding exb_parse add_caps read_tables
stale_requests img size out info h k =
    let q =
      parse_impl-Parsed img size out info
        (reported-passed (parse_impl (some img) size out) info k) in
    let none_read : (read_tables img).cap_cnt ≡ 0 = h in
    let caps = passed-injective (rw none_read at q.capped) in
    rw q.result
      (ap (λ (c : Caps). c.extra_tokens) (sym caps), ap (λ (c : Caps). c.heap_frames) (sym caps))
