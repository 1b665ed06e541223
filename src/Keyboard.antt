-- ===== src/Keyboard.antt =====
-- source/arch/amd64/kernel/xeret/kbd.c: the scan codes of a PS/2 keyboard, and the line editor over
-- them. What the controller answers is a parameter. The debug output on the serial line is left out.
pub mod Line
use xasmos.Base.{
  ℕ, zero, suc, ◌-◌, ◌/◌, ◌%◌, Bool, true, false, not, ◌&&◌, ◌||◌, Option, none, some, List, [],
  ◌∷◌, ltb, leb, ◌==◌, if◌then◌else◌,
}

abbrev pub sc_lctrl : ℕ
sc_lctrl = 0x1D

abbrev pub sc_lshift : ℕ
sc_lshift = 0x2A

abbrev pub sc_rshift : ℕ
sc_rshift = 0x36

abbrev pub sc_caps : ℕ
sc_caps = 0x3A

abbrev pub sc_table_n : ℕ
sc_table_n = 0x3A

abbrev pub map_plain : List ℕ
map_plain =
    0 ∷ 27 ∷ b'1' ∷ b'2' ∷ b'3' ∷ b'4' ∷ b'5' ∷ b'6' ∷ b'7' ∷ b'8' ∷ b'9' ∷ b'0' ∷ b'-' ∷ b'=' ∷ 8
    ∷ 9 ∷ b'q' ∷ b'w' ∷ b'e' ∷ b'r' ∷ b't' ∷ b'y' ∷ b'u' ∷ b'i' ∷ b'o' ∷ b'p' ∷ b'[' ∷ b']' ∷ 10 ∷ 0
    ∷ b'a' ∷ b's' ∷ b'd' ∷ b'f' ∷ b'g' ∷ b'h' ∷ b'j' ∷ b'k' ∷ b'l' ∷ b';' ∷ 39 ∷ b'`' ∷ 0 ∷ 92
    ∷ b'z' ∷ b'x' ∷ b'c' ∷ b'v' ∷ b'b' ∷ b'n' ∷ b'm' ∷ b',' ∷ b'.' ∷ b'/' ∷ 0 ∷ b'*' ∷ 0 ∷ b' ' ∷ []

abbrev pub map_shift : List ℕ
map_shift =
    0 ∷ 27 ∷ b'!' ∷ b'@' ∷ b'#' ∷ b'$' ∷ b'%' ∷ b'^' ∷ b'&' ∷ b'*' ∷ b'(' ∷ b')' ∷ b'_' ∷ b'+' ∷ 8
    ∷ 9 ∷ b'Q' ∷ b'W' ∷ b'E' ∷ b'R' ∷ b'T' ∷ b'Y' ∷ b'U' ∷ b'I' ∷ b'O' ∷ b'P' ∷ b'{' ∷ b'}' ∷ 10 ∷ 0
    ∷ b'A' ∷ b'S' ∷ b'D' ∷ b'F' ∷ b'G' ∷ b'H' ∷ b'J' ∷ b'K' ∷ b'L' ∷ b':' ∷ 34 ∷ b'~' ∷ 0 ∷ b'|'
    ∷ b'Z' ∷ b'X' ∷ b'C' ∷ b'V' ∷ b'B' ∷ b'N' ∷ b'M' ∷ b'<' ∷ b'>' ∷ b'?' ∷ 0 ∷ b'*' ∷ 0 ∷ b' ' ∷ []

-- The character of a scan code below `sc_table_n`.
unfoldable pub char_of : List ℕ → ℕ → ℕ
char_of [] sc = 0
char_of (c ∷ cs) sc = let rest = char_of cs (sc - 1) in if sc == 0 then c else rest

-- The statics of the file.
pub record Keys : Type 0 where
  pub shift : Bool
  pub caps : Bool
  pub ctrl : Bool
  pub ext : Bool
  pub skip : ℕ

abbrev pub released_all : Keys
released_all = record { shift = false; caps = false; ctrl = false; ext = false; skip = 0 }

abbrev pub differ : Bool → Bool → Bool
differ true b = not b
differ false b = b

-- The character that a key gives; 0 is none.
unfoldable pub typed_char : ℕ → Keys → ℕ
typed_char sc k =
    let plain = char_of map_plain sc in
    let shifted = char_of map_shift sc in
    if leb 97 plain && leb plain 122
    then if k.ctrl then plain % 32 else if differ k.shift k.caps then shifted else plain
    else if k.shift
    then shifted
    else plain

abbrev pub nonzero : ℕ → Option ℕ
nonzero c = if c == 0 then none else some c

-- A key that was pressed or released, after the prefixes.
unfoldable pub on_key : Bool → ℕ → Keys → Option ℕ × Keys
on_key released sc k =
    if k.ext
    then (none, record k { ext = false; ctrl = if sc == sc_lctrl then not released else k.ctrl })
    else if (sc == sc_lshift) || (sc == sc_rshift)
    then (none, record k { shift = not released })
    else if sc == sc_lctrl
    then (none, record k { ctrl = not released })
    else if sc == sc_caps
    then (none, record k { caps = if released then k.caps else not k.caps })
    else if released || leb sc_table_n sc
    then (none, k)
    else (nonzero (typed_char sc k), k)

-- One byte from the controller.
unfoldable pub on_code : ℕ → Keys → Option ℕ × Keys
on_code sc k =
    if not (k.skip == 0)
    then (none, record k { skip = k.skip - 1 })
    else if sc == 0xE1
    then (none, record k { skip = 5 })
    else if sc == 0xE0
    then (none, record k { ext = true })
    else on_key (sc / 128 == 1) (sc % 128) k

-- What the controller answers: its status and the byte that is read if the status says so. A list
-- that has ended stands for a controller that has nothing.
abbrev pub Answers : Type 0
Answers = List (ℕ × ℕ)

-- The loop of `xk_pollkey`: rounds left. The character, if any, and what is left to read.
unfoldable pub poll : ℕ → Answers → Keys → Option ℕ × Answers × Keys
poll zero answers k = (none, answers, k)
poll (suc n) [] k = (none, [], k)
poll (suc n) ((status, sc) ∷ rest) k =
    let (r, k') = on_code sc k in
    let aside = poll n rest k in
    let later = poll n rest k' in
    if status % 2 == 0
    then (none, rest, k)
    else if status / 32 % 2 == 1
    then aside
    else elim r [ none ↦ later | some c ↦ (some c, rest, k') ]

unfoldable pub xk_pollkey : Answers → Keys → Option ℕ × Answers × Keys
xk_pollkey answers k = poll 64 answers k

-- The drain of `xk_init_keyboard`: rounds left.
unfoldable pub drain : ℕ → Answers → Answers
drain zero answers = answers
drain (suc n) [] = []
drain (suc n) ((status, sc) ∷ rest) =
    let later = drain n rest in if status % 2 == 0 then rest else later

unfoldable pub xk_init_keyboard : Answers → Answers × Keys
xk_init_keyboard answers = (drain 32 answers, released_all)
