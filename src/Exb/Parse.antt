-- ===== src/Exb/Parse.antt =====
-- `parse_impl` and `exb_parse` of exb.c. `parse_impl` has one caller, which zeroes `*out` whenever it
-- fails; so a failure is its code alone, and what it had written by then does not appear.
use xasmos.Base.{
  ℕ, zero, suc, ◌+◌, ◌-◌, ◌*◌, ◌/◌, ◌%◌, ◌^◌, Bool, true, false, not, ◌&&◌, ◌||◌, ltb, leb, ◌==◌,
  if◌then◌else◌, bit_and, Option, none, some, add64, update,
}
use xasmos.Exb.Image.{
  Image, byte_at, le16, le32, le64, exb_crc32_image, overlap, Error, bad_size, bad_magic,
  bad_version, bad_header, bad_target, bad_crc, bad_segtab, bad_seg, write_execute, overlapping,
  bad_entry, bad_cap, over_limit, bad_kind, Checked, passed, rejected, ◌>>=◌, ◌>>◌, reject_if,
  ExbSeg, ExbInfo, zero_out, header_size, seg_size, cap_size, page, max_file, max_segs, max_caps,
  max_image_pages, max_image_bytes, default_stack_pages, max_stack_pages, max_heap_request,
  max_token_request, va_min, va_limit,
}

-- Whether one of the `n` bytes from `i` on is not zero.
unfoldable pub any_nonzero : ℕ → ℕ → Image → Bool
any_nonzero zero i img = false
any_nonzero (suc n) i img = not (byte_at img i == 0) || any_nonzero n (i + 1) img

-- The checks of the header, in order.
unfoldable pub check_header : Image → ℕ → Checked (Unit {0})
check_header img size = do
  reject_if (ltb size header_size || ltb max_file size) bad_size
  reject_if
      (not (byte_at img 0 == 0x7F)
        || not (byte_at img 1 == b'E')
        || not (byte_at img 2 == b'X')
        || not (byte_at img 3 == b'B'))
      bad_magic
  reject_if (not (byte_at img 4 == 1) || not (byte_at img 5 == 1)) bad_version
  reject_if (not (le16 img 6 == header_size)) bad_header
  reject_if (not (le32 img 8 == 0)) bad_header
  reject_if (any_nonzero 15 49 img) bad_header
  reject_if (not (byte_at img 48 == 0)) bad_kind
  reject_if (not (le32 img 12 == 1)) bad_target
  reject_if (not (le32 img 24 == size)) bad_size
  reject_if (not (le32 img 28 == exb_crc32_image img size)) bad_crc

-- Where the two tables lie in the file.
pub record Tables : Type 0 where
  pub seg_off : ℕ
  pub seg_cnt : ℕ
  pub seg_end : ℕ
  pub cap_off : ℕ
  pub cap_cnt : ℕ
  pub cap_end : ℕ

unfoldable pub read_tables : Image → Tables
read_tables img =
    let seg_off = le32 img 32 in
    let seg_cnt = le32 img 36 in
    let cap_off = le32 img 40 in
    let cap_cnt = le32 img 44 in
    record {
      seg_off = seg_off;
      seg_cnt = seg_cnt;
      seg_end = add64 seg_off (seg_cnt * seg_size);
      cap_off = cap_off;
      cap_cnt = cap_cnt;
      cap_end = if cap_cnt == 0 then cap_off else add64 cap_off (cap_cnt * cap_size);
    }

unfoldable pub check_cap_table : Tables → ℕ → Checked (Unit {0})
check_cap_table t size = do
  reject_if (ltb t.cap_off header_size || ltb size t.cap_end) bad_cap
  reject_if (overlap t.seg_off t.seg_end t.cap_off t.cap_end) overlapping

unfoldable pub check_tables : Tables → ℕ → Checked (Unit {0})
check_tables t size = do
  reject_if (ltb t.seg_cnt 1 || ltb max_segs t.seg_cnt) bad_segtab
  reject_if (ltb t.seg_off header_size || ltb size t.seg_end) bad_segtab
  reject_if (ltb max_caps t.cap_cnt) bad_cap
  let with_caps = check_cap_table t size
  if t.cap_cnt == 0 then reject_if (not (t.cap_off == 0)) bad_cap else with_caps

-- A segment entry as it is read, before its page count.
unfoldable pub read_seg : Image → ℕ → ExbSeg
read_seg img p =
    let mem = le64 img (p + 8) in
    record {
      vaddr = le64 img p;
      mem_size = mem;
      pages = add64 mem (page - 1) / page;
      file_off = le32 img (p + 16);
      file_size = le32 img (p + 20);
      flags = le32 img (p + 24);
    }

abbrev pub seg_vend : ExbSeg → ℕ
seg_vend s = add64 s.vaddr (s.pages * page)

abbrev pub seg_dend : ExbSeg → ℕ
seg_dend s = add64 s.file_off s.file_size

-- The reserved word and the flags.
unfoldable pub check_flags : ℕ → ℕ → Checked (Unit {0})
check_flags reserved fl = do
  reject_if (not (reserved == 0)) bad_seg
  reject_if (not (bit_and fl (2 ^ 32 - 1 - 7) == 0)) bad_seg
  reject_if (bit_and fl 1 == 0) bad_seg
  reject_if (not (bit_and fl 2 == 0) && not (bit_and fl 4 == 0)) write_execute

unfoldable pub check_memory : ExbSeg → Checked (Unit {0})
check_memory s = do
  reject_if (not (s.vaddr % page == 0)) bad_seg
  reject_if (ltb s.vaddr va_min || leb va_limit s.vaddr) bad_seg
  reject_if ((s.mem_size == 0) || ltb max_image_bytes s.mem_size) bad_seg
  reject_if (ltb va_limit (seg_vend s)) bad_seg

unfoldable pub check_file : Tables → ℕ → ExbSeg → Checked (Unit {0})
check_file t size s = do
  reject_if (ltb s.mem_size s.file_size) bad_seg
  let with_data = do
    reject_if (ltb s.file_off header_size) bad_seg
    reject_if (ltb size (seg_dend s)) bad_seg
    reject_if (overlap s.file_off (seg_dend s) t.seg_off t.seg_end) overlapping
    reject_if (not (t.cap_cnt == 0) && overlap s.file_off (seg_dend s) t.cap_off t.cap_end)
        overlapping
  if s.file_size == 0 then reject_if (not (s.file_off == 0)) bad_seg else with_data

-- The inner loop: `s` against the `n` segments from `j` on, which were accepted before it.
unfoldable pub check_against : ℕ → ℕ → (ℕ → ExbSeg) → ExbSeg → Checked (Unit {0})
check_against zero j segs s = passed tt
check_against (suc n) j segs s = do
  reject_if (overlap s.vaddr (seg_vend s) (segs j).vaddr (seg_vend (segs j))) overlapping
  reject_if
      (not (s.file_size == 0)
        && ltb (segs j).file_off (seg_dend (segs j))
        && overlap s.file_off (seg_dend s) (segs j).file_off (seg_dend (segs j)))
      overlapping
  check_against n (j + 1) segs s

-- The pages so far, and the segments written to `out->seg`.
pub record Layout : Type 0 where
  pub total_pages : ℕ
  pub segs : ℕ → ExbSeg

unfoldable pub add_seg : Image → ℕ → Tables → ℕ → Layout → Checked Layout
add_seg img size t i l = do
  let p = t.seg_off + i * seg_size
  let s = read_seg img p
  check_flags (le32 img (p + 28)) s.flags
  check_memory s
  check_file t size s
  reject_if (ltb max_image_pages (add64 l.total_pages s.pages)) over_limit
  check_against i 0 l.segs s
  passed (record { total_pages = add64 l.total_pages s.pages; segs = update l.segs i s })

-- The loop over the segments: how many are left, and the next.
unfoldable pub add_segs : ℕ → ℕ → Image → ℕ → Tables → Layout → Checked Layout
add_segs zero i img size t l = passed l
add_segs (suc n) i img size t l = add_seg img size t i l >>= λ l'. add_segs n (i + 1) img size t l'

-- The entry point lies in the file data of an executable segment.
abbrev pub holds_entry : ExbSeg → ℕ → Bool
holds_entry s entry =
    not (bit_and s.flags 4 == 0) && leb s.vaddr entry && ltb (entry - s.vaddr) s.file_size

unfoldable pub entry_ok : ℕ → (ℕ → ExbSeg) → ℕ → Bool
entry_ok zero segs entry = false
entry_ok (suc n) segs entry = entry_ok n segs entry || holds_entry (segs n) entry

-- `seen`, a bit for each capability that may stand once.
pub record Caps : Type 0 where
  pub seen_stack : Bool
  pub seen_heap : Bool
  pub seen_tokens : Bool
  pub stack_bytes : ℕ
  pub heap_frames : ℕ
  pub extra_tokens : ℕ

-- One entry of the capability table. `kind & ~OPTIONAL` is the kind below its highest bit.
unfoldable pub add_cap : ℕ → ℕ → ℕ → Caps → Checked Caps
add_cap kind reserved value c = do
  reject_if (not (reserved == 0)) bad_cap
  let base = kind % 2 ^ 31
  reject_if (base == 0) bad_cap
  let stack = do
    reject_if c.seen_stack bad_cap
    reject_if (not (value % page == 0) || ltb value page || ltb (max_stack_pages * page) value)
        bad_cap
    passed (record c { stack_bytes = value % 2 ^ 32; seen_stack = true })
  let heap = do
    reject_if c.seen_heap bad_cap
    reject_if (ltb max_heap_request value) bad_cap
    passed (record c { heap_frames = value; seen_heap = true })
  let tokens = do
    reject_if c.seen_tokens bad_cap
    reject_if (ltb max_token_request value) bad_cap
    passed (record c { extra_tokens = value % 2 ^ 32; seen_tokens = true })
  let other = do reject_if (ltb kind (2 ^ 31)) bad_cap; passed c
  if base == 1 then stack else if base == 2 then heap else if base == 3 then tokens else other

unfoldable pub add_caps : ℕ → ℕ → Image → Tables → Caps → Checked Caps
add_caps zero i img t c = passed c
add_caps (suc n) i img t c =
    let p = t.cap_off + i * cap_size in
    add_cap (le32 img p) (le32 img (p + 4)) (le64 img (p + 8)) c >>= λ c'.
    add_caps n (i + 1) img t c'

-- What `out` held before the call shows where the image does not overwrite it.
unfoldable pub parse_impl : Option Image → ℕ → ExbInfo → Checked ExbInfo
parse_impl none size out = rejected bad_size
parse_impl (some img) size out = do
  check_header img size
  let t = read_tables img
  check_tables t size
  l ← add_segs t.seg_cnt 0 img size t (record { total_pages = 0; segs = out.seg })
  reject_if (not (entry_ok t.seg_cnt l.segs (le64 img 16))) bad_entry
  c ← add_caps t.cap_cnt 0 img t (record {
    seen_stack = false;
    seen_heap = false;
    seen_tokens = false;
    stack_bytes = default_stack_pages * page;
    heap_frames = out.heap_frames;
    extra_tokens = out.extra_tokens;
  })
  passed (record {
    entry = le64 img 16;
    seg_count = t.seg_cnt;
    seg = l.segs;
    image_pages = l.total_pages;
    stack_bytes = c.stack_bytes;
    heap_frames = c.heap_frames;
    extra_tokens = c.extra_tokens;
  })

-- `none` is EXB_OK; `*out` is zeroed on any failure.
unfoldable pub reported : Checked ExbInfo → Option Error × ExbInfo
reported (passed info) = (none, info)
reported (rejected e) = (some e, zero_out)

unfoldable pub exb_parse : Option Image → ℕ → ExbInfo → Option Error × ExbInfo
exb_parse image size out = reported (parse_impl image size out)
