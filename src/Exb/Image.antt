-- ===== src/Exb/Image.antt =====
-- The format of exb.h, the little-endian readers of exb.c and its checksum.
use xasmos.Base.{
  ℕ, zero, suc, ◌+◌, ◌-◌, ◌*◌, ◌/◌, ◌%◌, ◌^◌, Bool, true, false, ◌&&◌, List, [], ◌∷◌, ltb, leb,
  if◌then◌else◌, for_up,
}
use Prim.Native.Nat.{bit_xor}

abbrev pub header_size : ℕ
header_size = 64

abbrev pub seg_size : ℕ
seg_size = 32

abbrev pub cap_size : ℕ
cap_size = 16

abbrev pub page : ℕ
page = 4096

abbrev pub max_file : ℕ
max_file = 16 * 1024 * 1024

abbrev pub max_segs : ℕ
max_segs = 8

abbrev pub max_caps : ℕ
max_caps = 8

abbrev pub max_image_pages : ℕ
max_image_pages = 4096

abbrev pub max_image_bytes : ℕ
max_image_bytes = 4096 * 4096

abbrev pub default_stack_pages : ℕ
default_stack_pages = 4

abbrev pub max_stack_pages : ℕ
max_stack_pages = 64

abbrev pub max_heap_request : ℕ
max_heap_request = 2 ^ 20

abbrev pub max_token_request : ℕ
max_token_request = 4096

abbrev pub va_min : ℕ
va_min = 0x8000000000

abbrev pub va_limit : ℕ
va_limit = 0x700000000000

-- The failures of `ExbStatus`.
pub data Error : Type 0 where
  bad_size bad_magic bad_version bad_header bad_target bad_crc bad_segtab bad_seg write_execute :
      Error
  overlapping bad_entry bad_cap over_limit bad_kind : Error

-- What a check of the image comes to.
pub data Checked {ℓ} (A : Type ℓ) : Type ℓ where
  rejected : Error → Checked A
  passed : A → Checked A

infixl 5 ◌>>=◌ ◌>>◌
abbrev pub ◌>>=◌ {ℓ κ} : {A : Type ℓ} {B : Type κ} → Checked A → (A → Checked B) → Checked B
rejected why >>= next = rejected why
passed result >>= next = next result

abbrev pub ◌>>◌ {κ} : {B : Type κ} → Checked (Unit {0}) → Checked B → Checked B
check >> next = check >>= λ _. next

-- `if (b) return e;`
abbrev pub reject_if : Bool → Error → Checked (Unit {0})
reject_if true e = rejected e
reject_if false e = passed tt

pub record ExbSeg : Type 0 where
  pub vaddr : ℕ
  pub mem_size : ℕ
  pub pages : ℕ
  pub file_off : ℕ
  pub file_size : ℕ
  pub flags : ℕ

pub record ExbInfo : Type 0 where
  pub entry : ℕ
  pub seg_count : ℕ
  pub seg : ℕ → ExbSeg
  pub image_pages : ℕ
  pub stack_bytes : ℕ
  pub heap_frames : ℕ
  pub extra_tokens : ℕ

abbrev pub zero_seg : ExbSeg
zero_seg = record { vaddr = 0; mem_size = 0; pages = 0; file_off = 0; file_size = 0; flags = 0 }

-- `zero_out`
abbrev pub zero_out : ExbInfo
zero_out = record {
  entry = 0;
  seg_count = 0;
  seg = λ _. zero_seg;
  image_pages = 0;
  stack_bytes = 0;
  heap_frames = 0;
  extra_tokens = 0;
}

-- The bytes of an image, by offset.
abbrev pub Image : Type 0
Image = ℕ → ℕ

abbrev pub byte_at : Image → ℕ → ℕ
byte_at img i = img i % 256

-- The shifted bytes do not overlap, so `|` is a sum.
unfoldable pub le16 : Image → ℕ → ℕ
le16 img p = byte_at img p + byte_at img (p + 1) * 2 ^ 8

unfoldable pub le32 : Image → ℕ → ℕ
le32 img p =
    byte_at img p
    + byte_at img (p + 1) * 2 ^ 8
    + byte_at img (p + 2) * 2 ^ 16
    + byte_at img (p + 3) * 2 ^ 24

unfoldable pub le64 : Image → ℕ → ℕ
le64 img p = le32 img p + le32 img (p + 4) * 2 ^ 32

abbrev crc_table : List ℕ
crc_table =
    0x00000000 ∷ 0x1DB71064 ∷ 0x3B6E20C8 ∷ 0x26D930AC ∷ 0x76DC4190 ∷ 0x6B6B51F4 ∷ 0x4DB26158
    ∷ 0x5005713C ∷ 0xEDB88320 ∷ 0xF00F9344 ∷ 0xD6D6A3E8 ∷ 0xCB61B38C ∷ 0x9B64C2B0 ∷ 0x86D3D2D4
    ∷ 0xA00AE278 ∷ 0xBDBDF21C ∷ []

unfoldable pub table_at : List ℕ → ℕ → ℕ
table_at [] i = 0
table_at (x ∷ xs) zero = x
table_at (x ∷ xs) (suc i) = table_at xs i

-- One nibble: (crc >> 4) ^ tab[crc & 15]
unfoldable pub crc_nibble : ℕ → ℕ
unfolding table_at
crc_nibble crc = bit_xor (crc / 2 ^ 4) (table_at crc_table (crc % 16))

-- The loop body: the checksum's own bytes 28..31 count as zero.
unfoldable pub crc_byte : Image → ℕ → ℕ → ℕ
unfolding crc_nibble
crc_byte img i crc =
    let b = if leb 28 i && ltb i 32 then 0 else byte_at img i in
    crc_nibble (crc_nibble (bit_xor crc b))

unfoldable pub exb_crc32_image : Image → ℕ → ℕ
unfolding crc_byte
exb_crc32_image img size = 2 ^ 32 - 1 - for_up size 0 (crc_byte img) (2 ^ 32 - 1)

unfoldable pub overlap : ℕ → ℕ → ℕ → ℕ → Bool
overlap a0 a1 b0 b1 = ltb a0 b1 && ltb b0 a1
