-- ===== src/Superdir.antt =====
-- source/arch/amd64/syslib/core/path.c: paths with the delimiter '|'. A C string is a function from
-- indices to bytes, with a zero byte at its end.
use xasmos.Base.{
  ℕ, zero, suc, ◌+◌, ◌-◌, Bool, false, not, ◌&&◌, Option, none, some, ltb, leb, ◌==◌, if◌then◌else◌,
  update,
}

abbrev pub max_path_length : ℕ
max_path_length = 256

abbrev pub max_tokens : ℕ
max_tokens = 8

abbrev pub max_token_size : ℕ
max_token_size = 32

abbrev pub resolve_max : ℕ
resolve_max = 256

abbrev pub Chars : Type 0
Chars = ℕ → ℕ

pub record SuperDirPath : Type 0 where
  pub tokens : ℕ → Chars
  pub token_count : ℕ

-- The tokens written so far, `t_idx` and `c_idx`.
pub record Cursor : Type 0 where
  pub tokens : ℕ → Chars
  pub t_idx : ℕ
  pub c_idx : ℕ

-- out_parsed->tokens[t_idx][c_idx] = ch
abbrev pub put_char : ℕ → Cursor → ℕ → Chars
put_char ch k = update k.tokens k.t_idx (update (k.tokens k.t_idx) k.c_idx ch)

-- The current token is closed.
abbrev pub close_token : Cursor → Cursor
close_token k = record { tokens = put_char 0 k; t_idx = k.t_idx + 1; c_idx = 0 }

unfoldable pub add_char : ℕ → Cursor → Cursor
add_char ch k =
    if ltb k.c_idx (max_token_size - 1)
    then record k { tokens = put_char ch k; c_idx = k.c_idx + 1 }
    else k

-- The loop over the characters: rounds left, and index.
unfoldable pub split_from : ℕ → ℕ → Chars → Cursor → Cursor
split_from zero i raw k = k
split_from (suc n) i raw k =
    let k' = close_token k in
    let after_bar = split_from n (i + 1) raw k in
    let after_token = split_from n (i + 1) raw k' in
    let after_char = split_from n (i + 1) raw (add_char (raw i) k) in
    if raw i == 0
    then k
    else if raw i == b'|'
    then (if ltb 0 k.c_idx
        then (if leb max_tokens k'.t_idx then k' else after_token)
        else after_bar)
    else after_char

-- The last token is closed unless the path ends in the delimiter.
unfoldable pub close_last : Cursor → Cursor
close_last k =
    if ltb 0 k.c_idx && ltb k.t_idx max_tokens
    then record k { tokens = put_char 0 k; t_idx = k.t_idx + 1 }
    else k

-- Whether the result is 0, and `*out_parsed` afterwards.
unfoldable pub parse_superdir_path : Chars → SuperDirPath → Bool × SuperDirPath
parse_superdir_path raw out =
    let k = close_last (
      split_from (max_path_length - 1) 1 raw
        (record { tokens = out.tokens; t_idx = 0; c_idx = 0 })) in
    if not (raw 0 == b'|')
    then (false, out)
    else (ltb 0 k.t_idx, record { tokens = k.tokens; token_count = k.t_idx })

-- while (src[j] != '\0' && i < RESOLVE_MAX - 1) out[i++] = src[j++]; the index and the output.
unfoldable pub append_from : ℕ → ℕ → ℕ → Chars → Chars → ℕ × Chars
append_from zero i j src out = (i, out)
append_from (suc rounds) i j src out =
    let rest = append_from rounds (i + 1) (j + 1) src (update out i (src j)) in
    if not (src j == 0) && ltb i (resolve_max - 1) then rest else (i, out)

unfoldable pub append : ℕ → Chars → Chars → ℕ × Chars
append i src out = append_from (resolve_max - 1 - i) i 0 src out

abbrev pub terminate : ℕ × Chars → Chars
terminate (i, out) = update out i 0

-- The delimiter between the directory and the target.
unfoldable pub add_bar : ℕ × Chars → ℕ × Chars
add_bar (i, out) =
    if ltb 0 i && not (out (i - 1) == b'|') && ltb i (resolve_max - 1)
    then (i + 1, update out i b'|')
    else (i, out)

unfoldable pub append_target : Chars → ℕ × Chars → ℕ × Chars
append_target target (i, out) = append i target out

-- A null target is `none`.
unfoldable pub resolve_superdir_path : Chars → Option Chars → Chars → Chars
resolve_superdir_path cwd none out = terminate (append 0 cwd out)
resolve_superdir_path cwd (some target) out =
    if target 0 == 0
    then terminate (append 0 cwd out)
    else if target 0 == b'|'
    then terminate (append 0 target out)
    else terminate (append_target target (add_bar (append 0 cwd out)))
