-- ===== src/Lines/Texts.antt =====
-- fgets on a file of lines that fit in the buffer, each with a newline behind it.
use cse344_coursework.Base.{
  ℕ, ◌+◌, ◌<◌, ◌≡◌, refl, ◌≢◌, ap, ◌∙◌, All, List, [], ◌∷◌, ◌++◌, map, Bytes, length, arith,
}
use cse344_coursework.Tokens.Join.{terminated}
use cse344_coursework.Lines.{fgets_lines, fgets_lines-line}

-- A text that `fgets` reads in one call, with its newline, into a buffer of the size.
pub record IsLine (size : ℕ) (text : Bytes) : Type 0 where
  pub one_line : All (λ x. x ≢ b'\n') text
  pub fits : length text + 1 < size

abbrev pub line_of : Bytes → Bytes
line_of text = text ++ (b'\n' ∷ [])

pub fgets_lines-terminated :
    (size : ℕ) (texts : List Bytes)
    → All (IsLine size) texts
    → fgets_lines size (terminated b'\n' texts) [] ≡ map line_of texts
unfolding fgets_lines
fgets_lines-terminated size [] h = refl
fgets_lines-terminated size (t ∷ texts) (h, hs) =
    let fits : 0 + length t + 1 < size = omega (arith, h.fits) in
    fgets_lines-line size t (terminated b'\n' texts) [] h.one_line fits
    ∙ ap (λ ls. line_of t ∷ ls) (fgets_lines-terminated size texts hs)
