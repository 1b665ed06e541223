-- ===== src/Keyboard/Line.antt =====
-- `xk_readline` of kbd.c over the characters that `xk_getkey` returns, and a line editor on lists.
use xasmos.Base.{
  ℕ, ◌+◌, ◌-◌, ◌<◌, ◌≤◌, ◌≡◌, refl, ◌∙◌, Bool, true, false, ◌&&◌, Option, none, some, List, [], ◌∷◌,
  ltb, leb, ◌==◌, if◌then◌else◌, update, arith, Bool-cases, inl, inr,
}

abbrev pub is_text : ℕ → Bool
is_text c = leb 32 c && leb c 126

-- The loop: the characters to come, the index, the capacity, the buffer and the characters echoed
-- so far, the latest first. `none` means that the line has not ended yet.
unfoldable pub read_from : List ℕ → ℕ → ℕ → (ℕ → ℕ) → List ℕ → Option (ℕ × (ℕ → ℕ) × List ℕ)
read_from [] idx max buffer echo = none
read_from (c ∷ keys) idx max buffer echo =
    let erased = read_from keys (idx - 1) max buffer (8 ∷ echo) in
    let typed = read_from keys (idx + 1) max (update buffer idx c) (c ∷ echo) in
    let ignored = read_from keys idx max buffer echo in
    if c == 10
    then some (idx, update buffer idx 0, 10 ∷ echo)
    else if c == 8
    then if ltb 0 idx then erased else ignored
    else if is_text c && ltb (idx + 1) max
    then typed
    else ignored

unfoldable pub xk_readline : List ℕ → ℕ → (ℕ → ℕ) → Option (ℕ × (ℕ → ℕ) × List ℕ)
xk_readline keys max buffer = read_from keys 0 max buffer []

-- The line editor on a list, the latest character first.
unfoldable pub size : List ℕ → ℕ
size [] = 0
size (c ∷ cs) = size cs + 1

unfoldable pub erase : List ℕ → List ℕ
erase [] = []
erase (c ∷ cs) = cs

unfoldable pub press : ℕ → ℕ → List ℕ → List ℕ
press max c text =
    if c == 8 then erase text else if is_text c && ltb (size text + 1) max then c ∷ text else text

-- The text up to the first newline.
unfoldable pub edit : ℕ → List ℕ → List ℕ → Option (List ℕ)
edit max [] text = none
edit max (c ∷ keys) text =
    let rest = edit max keys (press max c text) in if c == 10 then some text else rest

-- The first cells of the buffer are the text.
pub data Spells (buffer : ℕ → ℕ) : List ℕ → Type 0 where
  blank : Spells buffer []
  ends : {c : ℕ} {cs : List ℕ} → buffer (size cs) ≡ c → Spells buffer cs → Spells buffer (c ∷ cs)

Spells-agree :
    (b b' : ℕ → ℕ) (text : List ℕ)
    → ((i : ℕ) → i < size text → b' i ≡ b i)
    → Spells b text
    → Spells b' text
unfolding size
Spells-agree b b' [] same blank = blank
Spells-agree b b' (c ∷ cs) same (ends e rest) =
    ends (same (size cs) (omega arith) ∙ e)
      (Spells-agree b b' cs (λ i h. same i (omega arith)) rest)

Spells-update :
    (b : ℕ → ℕ) (c : ℕ) (text : List ℕ) → Spells b text → Spells (update b (size text) c) text
Spells-update b c text s = Spells-agree b (update b (size text) c) text (λ i h. ground arith) s

Spells-erase : (b : ℕ → ℕ) (text : List ℕ) → Spells b text → Spells b (erase text)
unfolding erase
Spells-erase b [] blank = blank
Spells-erase b (c ∷ cs) (ends e rest) = rest

size-erase : (text : List ℕ) → size (erase text) ≡ size text - 1
unfolding size erase
size-erase [] = refl
size-erase (c ∷ cs) = omega arith

empty_text : (text : List ℕ) → size text ≡ 0 → erase text ≡ text
unfolding size erase
empty_text [] h = refl
empty_text (c ∷ cs) h = absurd (omega arith)

press-erase : (max c : ℕ) (text : List ℕ) → (c == 8) ≡ true → press max c text ≡ erase text
unfolding press
press-erase max c text a = rw a refl

press_type :
    (max c : ℕ) (text : List ℕ)
    → (c == 8) ≡ false
    → (is_text c && ltb (size text + 1) max) ≡ true
    → press max c text ≡ c ∷ text
unfolding press
press_type max c text a b = rw (a, b) refl

press_ignore :
    (max c : ℕ) (text : List ℕ)
    → (c == 8) ≡ false
    → (is_text c && ltb (size text + 1) max) ≡ false
    → press max c text ≡ text
unfolding press
press_ignore max c text a b = rw (a, b) refl

-- A line that the editor has ended, as the buffer holds it.
pub record Line (max : ℕ) (buffer : ℕ → ℕ) (text : List ℕ) (r : Option (ℕ × (ℕ → ℕ) × List ℕ))
    : Type 0 where
  pub cells : ℕ → ℕ
  pub echo : List ℕ
  pub result : r ≡ some (size text, cells, echo)
  pub spelt : Spells cells text
  pub ended : cells (size text) ≡ 0
  pub fits : size text < max
  pub beyond : (i : ℕ) → max ≤ i → cells i ≡ buffer i

abbrev pub ReadsLine : ℕ → (ℕ → ℕ) → Option (List ℕ) → Option (ℕ × (ℕ → ℕ) × List ℕ) → Type 0
ReadsLine max buffer none r = r ≡ none
ReadsLine max buffer (some text) r = Line max buffer text r

-- A change below the capacity is no change beyond it.
ReadsLine-update :
    (max i c : ℕ) (buffer : ℕ → ℕ) (o : Option (List ℕ)) (r : Option (ℕ × (ℕ → ℕ) × List ℕ))
    → i < max
    → ReadsLine max (update buffer i c) o r
    → ReadsLine max buffer o r
ReadsLine-update max i c buffer none r h e = e
ReadsLine-update max i c buffer (some text) r h e = record {
  cells = e.cells;
  echo = e.echo;
  result = e.result;
  spelt = e.spelt;
  ended = e.ended;
  fits = e.fits;
  beyond = λ j q. ground (arith, e.beyond j q);
}

read_from-ReadsLine :
    (keys : List ℕ) (max idx : ℕ) (buffer : ℕ → ℕ) (text echo : List ℕ)
    → idx ≡ size text
    → size text < max
    → Spells buffer text
    → ReadsLine max buffer (edit max keys text) (read_from keys idx max buffer echo)
unfolding read_from edit
read_from-ReadsLine [] max idx buffer text echo at fits s = refl
read_from-ReadsLine (c ∷ keys) max idx buffer text echo at fits s = elim (Bool-cases (c == 10)) [
  | inl e ↦
      rw (e, at)
        (record {
          cells = update buffer (size text) 0;
          echo = 10 ∷ echo;
          result = refl;
          spelt = Spells-update buffer 0 text s;
          ended = ground arith;
          fits = fits;
          beyond = λ i q. ground arith;
        })
  | inr e ↦ elim (Bool-cases (c == 8)) [
    | inl a ↦ elim (Bool-cases (ltb 0 idx)) [
      | inl z ↦
          let p = press-erase max c text a in
          rw (e, p, a, z)
            (read_from-ReadsLine keys max (idx - 1) buffer (erase text) (8 ∷ echo)
              (omega (arith, size-erase text, at)) (omega (arith, size-erase text, fits))
              (Spells-erase buffer text s))
      | inr z ↦
          let p : press max c text ≡ text =
            press-erase max c text a ∙ empty_text text (ground (arith, z, at)) in
          rw (e, p, a, z) (read_from-ReadsLine keys max idx buffer text echo at fits s)
    ]
    | inr a ↦ elim (Bool-cases (is_text c && ltb (idx + 1) max)) [
      | inl b ↦
          let p = press_type max c text a (rw (← at) b) in
          let room : size text + 1 < max = ground (arith, b, at) in
          rw (e, p, a, b)
            (ReadsLine-update max idx c buffer (edit max keys (c ∷ text)) _
              (omega (arith, at, fits))
              (read_from-ReadsLine keys max (idx + 1) (update buffer idx c) (c ∷ text) (c ∷ echo)
                (unfold size in omega (arith, at)) (unfold size in room)
                (rw at (ends {c = c} {cs = text} (ground arith) (Spells-update buffer c text s)))))
      | inr b ↦
          let p = press_ignore max c text a (rw (← at) b) in
          rw (e, p, a, b) (read_from-ReadsLine keys max idx buffer text echo at fits s)
    ]
  ]
]

-- With room for at least one cell, `xk_readline` ends exactly if a newline is among the characters
-- to come. It returns the length of the text that the editor on lists has at the first newline: the
-- buffer holds that text, latest character last, and a zero behind it; the length is below the
-- capacity, and no cell from the capacity on has changed.
pub xk_readline-ReadsLine :
    (keys : List ℕ) (max : ℕ) (buffer : ℕ → ℕ)
    → 1 ≤ max
    → ReadsLine max buffer (edit max keys []) (xk_readline keys max buffer)
unfolding xk_readline
xk_readline-ReadsLine keys max buffer h =
    read_from-ReadsLine keys max 0 buffer [] [] (unfold size in refl) (unfold size in omega arith)
      blank
