-- ===== src/Xerlibc/Numbers.antt =====
-- source/core/xerlibc/src/fmt.c: numbers and hex dumps as text. What a function writes from `out` on
-- is the list of its characters; its result is the length of that list.
use xasmos.Base.{
  ℕ, zero, suc, ◌+◌, ◌-◌, ◌*◌, ◌/◌, ◌%◌, ◌^◌, ◌<◌, ◌≡◌, ◌&&◌, List, [], ◌∷◌, ◌++◌, ltb, leb, ◌==◌,
  if◌then◌else◌, arith, ap, ◌∙◌, if_both,
}
use native.Mathlib.Numerals.{unary_clauses}

-- The `do` loop of `xl_u64_dec`, which writes the last digit first: the digits of `v`, in order.
unfoldable pub dec_digits : ℕ → ℕ → List ℕ → List ℕ
dec_digits zero v out = out
dec_digits (suc rounds) v out =
    let out' = (b'0' + v % 10) ∷ out in
    let rest = dec_digits rounds (v / 10) out' in if v / 10 == 0 then out' else rest

-- `tmp` has room for 20 digits.
unfoldable pub xl_u64_dec : ℕ → List ℕ
xl_u64_dec v = dec_digits 20 v []

-- `hexdigits[i]`, for an index below 16
unfoldable pub hexdigits : ℕ → ℕ
hexdigits i = if ltb i 10 then b'0' + i else b'A' + (i - 10)

-- The loop of `xl_u64_hex`: digits left.
unfoldable pub hex_from : ℕ → ℕ → List ℕ
hex_from zero v = []
hex_from (suc n) v = hexdigits (v / 2 ^ (4 * n) % 16) ∷ hex_from n v

unfoldable pub xl_u64_hex : ℕ → ℕ → List ℕ
xl_u64_hex v width = hex_from (if ltb 16 width then 16 else width) v

-- The hex column: cells left, cell, and how many bytes there are.
unfoldable pub hex_column : ℕ → ℕ → ℕ → (ℕ → ℕ) → List ℕ
hex_column zero i n b = []
hex_column (suc left) i n b =
    let cell =
      if ltb i n
      then hexdigits (b i % 256 / 16) ∷ hexdigits (b i % 16) ∷ b' ' ∷ []
      else b' ' ∷ b' ' ∷ b' ' ∷ [] in
    let gap = if i == 7 then b' ' ∷ [] else [] in cell ++ gap ++ hex_column left (i + 1) n b

-- The text column.
unfoldable pub text_column : ℕ → ℕ → ℕ → (ℕ → ℕ) → List ℕ
text_column zero i n b = []
text_column (suc left) i n b =
    let c = b i % 256 in
    let shown = if leb 0x20 c && ltb c 0x7F then c else b'.' in
    (if ltb i n then shown else b' ') ∷ text_column left (i + 1) n b

-- The line without its terminator, which the length does not count.
unfoldable pub xl_hexdump_line : ℕ → (ℕ → ℕ) → ℕ → List ℕ
xl_hexdump_line off b n =
    let n' = if ltb 16 n then 16 else n in
    xl_u64_hex off 8
    ++ (b' ' ∷ b' ' ∷ [])
    ++ hex_column 16 0 n' b
    ++ (b'|' ∷ [])
    ++ text_column 16 0 n' b
    ++ (b'|' ∷ [])

-- The number that decimal digits show.
unfoldable pub dec_value : ℕ → List ℕ → ℕ
dec_value acc [] = acc
dec_value acc (c ∷ cs) = dec_value (acc * 10 + (c - b'0')) cs

rounds_left : (r x : ℕ) → 0 < x → x < 10 ^ r → 0 < r
rounds_left zero x a b = absurd (omega arith)
rounds_left (suc r) x a b = omega arith

dec_digits-value :
    (rounds v : ℕ) (out : List ℕ)
    → 0 < rounds
    → v < 10 ^ rounds
    → dec_value 0 (dec_digits rounds v out) ≡ dec_value v out
unfolding dec_digits dec_value
dec_digits-value zero v out pos small = absurd (omega arith)
dec_digits-value (suc r) v out pos small =
    let wide : v < 10 ^ r * 10 = simp unary_clauses at small in
    let shorter : v / 10 < 10 ^ r = omega arith in
    let back : v / 10 * 10 + (b'0' + v % 10 - b'0') ≡ v = omega arith in
    if_both (λ l. dec_value 0 l ≡ dec_value v out) (v / 10 == 0) _ _
      (λ e.
        let all : 0 * 10 + (b'0' + v % 10 - b'0') ≡ v = ground arith in
        ap (λ x. dec_value x out) all)
      (λ e.
        dec_digits-value r (v / 10) ((b'0' + v % 10) ∷ out)
          (rounds_left r (v / 10) (ground arith) shorter) shorter
        ∙ ap (λ x. dec_value x out) back)

-- The digits that `xl_u64_dec` writes for a 64-bit number read back as that number: the room for 20
-- digits is enough.
pub dec_value-xl_u64_dec : (v : ℕ) → v < 2 ^ 64 → dec_value 0 (xl_u64_dec v) ≡ v
unfolding xl_u64_dec dec_value
dec_value-xl_u64_dec v small = dec_digits-value 20 v [] (omega arith) (omega arith)
