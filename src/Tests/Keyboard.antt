-- ===== src/Tests/Keyboard.antt =====
-- The theorem on source/arch/amd64/kernel/xeret/kbd.c, for a line of eight cells; and what a shifted
-- key gives.
use xasmos.Base.{◌≡◌, refl, arith, some, [], ◌∷◌}
use xasmos.Keyboard.{Answers, released_all, xk_pollkey, poll, on_code, on_key, typed_char, char_of}
use xasmos.Keyboard.Line.{ReadsLine, edit, xk_readline, xk_readline-ReadsLine}

xk_readline-ReadsLine_example :
    ReadsLine 8
      (λ _. 7)
      (edit 8 (b'a' ∷ b'x' ∷ 8 ∷ b'b' ∷ 10 ∷ []) [])
      (xk_readline (b'a' ∷ b'x' ∷ 8 ∷ b'b' ∷ 10 ∷ []) 8 (λ _. 7))
xk_readline-ReadsLine_example =
    xk_readline-ReadsLine (b'a' ∷ b'x' ∷ 8 ∷ b'b' ∷ 10 ∷ []) 8 (λ _. 7) (omega arith)

-- Left shift, then the key of the letter `a`.
abbrev shifted_a : Answers
shifted_a = (1, 0x2A) ∷ (1, 0x1E) ∷ []

shifted : (xk_pollkey shifted_a released_all).0 ≡ some b'A'
unfolding xk_pollkey poll on_code on_key typed_char char_of
shifted = refl
