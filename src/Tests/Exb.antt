-- ===== src/Tests/Exb.antt =====
-- The theorems on source/core/exb/exb.c, on an image of one segment with four bytes of code.
use xasmos.Base.{ℕ, ◌≡◌, refl, for_up, none, some, List, [], ◌∷◌}
use xasmos.Exb.Image.{
  Image, ExbInfo, zero_seg, le16, le32, le64, exb_crc32_image, crc_byte, crc_nibble, table_at,
  overlap,
}
use xasmos.Exb.Parse.{
  any_nonzero, check_header, read_tables, check_cap_table, check_tables, read_seg, check_flags,
  check_memory, check_file, check_against, add_seg, add_segs, entry_ok, add_caps, parse_impl,
  reported, exb_parse,
}
use xasmos.Exb.Safe.{IsIntact, IsLoadable, exb_parse_safe, stale_requests}

abbrev bytes : List ℕ
bytes =
    127 ∷ 69 ∷ 88 ∷ 66 ∷ 1 ∷ 1 ∷ 64 ∷ 0 ∷ 0 ∷ 0 ∷ 0 ∷ 0 ∷ 1 ∷ 0 ∷ 0 ∷ 0 ∷ 0 ∷ 0 ∷ 0 ∷ 0 ∷ 128 ∷ 0
    ∷ 0 ∷ 0 ∷ 100 ∷ 0 ∷ 0 ∷ 0 ∷ 74 ∷ 138 ∷ 238 ∷ 223 ∷ 64 ∷ 0 ∷ 0 ∷ 0 ∷ 1 ∷ 0 ∷ 0 ∷ 0 ∷ 0 ∷ 0 ∷ 0
    ∷ 0 ∷ 0 ∷ 0 ∷ 0 ∷ 0 ∷ 0 ∷ 0 ∷ 0 ∷ 0 ∷ 0 ∷ 0 ∷ 0 ∷ 0 ∷ 0 ∷ 0 ∷ 0 ∷ 0 ∷ 0 ∷ 0 ∷ 0 ∷ 0 ∷ 0 ∷ 0 ∷ 0
    ∷ 0 ∷ 128 ∷ 0 ∷ 0 ∷ 0 ∷ 0 ∷ 32 ∷ 0 ∷ 0 ∷ 0 ∷ 0 ∷ 0 ∷ 0 ∷ 96 ∷ 0 ∷ 0 ∷ 0 ∷ 4 ∷ 0 ∷ 0 ∷ 0 ∷ 5 ∷ 0
    ∷ 0 ∷ 0 ∷ 0 ∷ 0 ∷ 0 ∷ 0 ∷ 244 ∷ 235 ∷ 253 ∷ 144 ∷ []

unfoldable pub image : Image
unfolding table_at
image i = table_at bytes i

-- What the caller's structure happens to hold.
abbrev pub before : ExbInfo
before = record {
  entry = 0;
  seg_count = 0;
  seg = λ _. zero_seg;
  image_pages = 0;
  stack_bytes = 0;
  heap_frames = 5;
  extra_tokens = 777;
}

abbrev after : ExbInfo
after = (exb_parse (some image) 100 before).1

accepted : exb_parse (some image) 100 before ≡ (none, after)
unfolding exb_parse reported parse_impl check_header any_nonzero le16 le32 le64 exb_crc32_image
    crc_byte crc_nibble table_at for_up image read_tables check_tables check_cap_table add_segs
    add_seg read_seg check_flags check_memory check_file check_against entry_ok add_caps overlap
accepted = refl

exb_parse_safe_example : IsIntact image 100 × IsLoadable 100 after
exb_parse_safe_example = exb_parse_safe image 100 before after accepted

no_caps : le32 image 44 ≡ 0
unfolding le32 image table_at
no_caps = refl

stale_requests_example : (after.extra_tokens ≡ 777) × (after.heap_frames ≡ 5)
stale_requests_example = stale_requests image 100 before after no_caps accepted
