-- ===== src/Exfs/Format.antt =====
-- The geometry of exfs.h and the little-endian fields of sb.c, on pages of bytes by offset.
pub mod Fields
use xasmos.Base.{ℕ, ◌+◌, ◌*◌, ◌/◌, ◌%◌, ◌^◌, update, for_up}
use Prim.Native.Nat.{bit_xor}

abbrev pub block_size : ℕ
block_size = 4096

abbrev pub itab_area0 : ℕ
itab_area0 = 2

abbrev pub itab_blocks : ℕ
itab_blocks = 8

abbrev pub itab_area1 : ℕ
itab_area1 = itab_area0 + itab_blocks

abbrev pub data_start : ℕ
data_start = itab_area1 + itab_blocks

abbrev pub Page : Type 0
Page = ℕ → ℕ

-- (uint8_t)v
unfoldable pub put8 : ℕ → ℕ → Page → Page
put8 at v p = update p at (v % 256)

unfoldable pub put32 : ℕ → ℕ → Page → Page
put32 at v p =
    put8 (at + 3) (v / 2 ^ 24)
      (put8 (at + 2) (v / 2 ^ 16) (put8 (at + 1) (v / 2 ^ 8) (put8 at v p)))

unfoldable pub put64 : ℕ → ℕ → Page → Page
put64 at v p = put32 (at + 4) (v / 2 ^ 32 % 2 ^ 32) (put32 at (v % 2 ^ 32) p)

-- The shifted bytes do not overlap, so `|` is a sum. A cell is read as a byte.
unfoldable pub get32 : ℕ → Page → ℕ
get32 at p =
    p at % 256 + p (at + 1) % 256 * 2 ^ 8 + p (at + 2) % 256 * 2 ^ 16 + p (at + 3) % 256 * 2 ^ 24

unfoldable pub get64 : ℕ → Page → ℕ
get64 at p = get32 at p + get32 (at + 4) p * 2 ^ 32

-- FNV-1a over the first `n` bytes.
unfoldable pub fnv64 : ℕ → Page → ℕ
fnv64 n p = for_up n 0 (λ i h. bit_xor h (p i % 256) * 1099511628211 % 2 ^ 64) 14695981039346656037
