-- ===== src/Csv/File.antt =====
-- A file of printed rows: how get_current_row of Final/Server/main.c reads a row of it, and what
-- calculate_row_number and calculate_column_number count.
use cse344_coursework.Base.{
  ℕ, ◌+◌, ◌≡◌, refl, ◌≢◌, ap, All, false, some, List, [], ◌∷◌, ◌++◌, inr, ◌==◌, drop, Bytes, length,
  arith, ◌∙◌,
}
use cse344_coursework.Tokens.Runs.{substr-run}
use cse344_coursework.Csv.{comma, quote, newline, get_current_row, column_loop, row_loop}
use cse344_coursework.Csv.Split.{
  Field, blank, bare, quoted, text, row_text, IsField, IsPlain, IsInner,
}
use cse344_coursework.Csv.RoundTrip.{values, split-row_text}
use cse344_coursework.Csv.Scan.{IsLine, IsQuoted, IsCell}
use cse344_coursework.Csv.Row.{
  last_field, row_end-row_text, column_loop-row_text, row_loop-row_text,
}

-- The rows, a newline behind each.
unfoldable pub file_text : List (List Field) → Bytes
file_text [] = []
file_text (row ∷ rows) = row_text row ++ (newline ∷ file_text rows)

pub record IsRow (n : ℕ) (row : List Field) : Type 0 where
  pub cells : All IsCell row
  pub width : length row ≡ n
  pub not_empty : row_text row ≢ []

line-IsPlain : (w : Bytes) → All IsLine w → All IsPlain w × All (λ x. x ≢ 0) w
line-IsPlain [] h = (tt, tt)
line-IsPlain (x ∷ w) ((h0, hq, hc, hn, he), hs) =
    let (a, b) = line-IsPlain w hs in (((h0, hq, hc), a), (h0, b))

quoted-IsInner : (w : Bytes) → All IsQuoted w → All IsInner w × All (λ x. x ≢ 0) w
quoted-IsInner [] h = (tt, tt)
quoted-IsInner (x ∷ w) ((h0, hq, he), hs) =
    let (a, b) = quoted-IsInner w hs in (((h0, hq), a), (h0, b))

All-append_end : (a b : Bytes) → All (λ x. x ≢ 0) a → All (λ x. x ≢ 0) b → All (λ x. x ≢ 0) (a ++ b)
All-append_end [] b h k = k
All-append_end (x ∷ a) b (h, hs) k = (h, All-append_end a b hs k)

cell-IsField : (f : Field) → IsCell f → IsField f × All (λ x. x ≢ 0) (text f)
unfolding text
cell-IsField blank h = (tt, tt)
cell-IsField (bare w) (ne, h) = let (a, b) = line-IsPlain w h in ((ne, a), b)
cell-IsField (quoted w) h =
    let (a, b) = quoted-IsInner w h in
    (a, ((λ e. omega arith), All-append_end w (quote ∷ []) b ((λ e. omega arith), tt)))

cells-IsField : (fs : List Field) → All IsCell fs → All IsField fs × All (λ x. x ≢ 0) (row_text fs)
unfolding row_text
cells-IsField [] h = (tt, tt)
cells-IsField (f ∷ []) (h, _) = let (a, b) = cell-IsField f h in ((a, tt), b)
cells-IsField (f ∷ g ∷ fs) (h, hs) =
    let (a, b) = cell-IsField f h in
    let (as', bs) = cells-IsField (g ∷ fs) hs in
    ((a, as'), All-append_end (text f) (comma ∷ row_text (g ∷ fs)) b ((λ e. omega arith), bs))

drop-length : (p q : Bytes) → drop (length p) (p ++ q) ≡ q
drop-length [] q = refl
drop-length (x ∷ p) q = drop-length p q

row-ends : (p q : Bytes) → q ≢ [] → (length p == length p + length q) ≡ false
row-ends p [] ne = absurd (ne refl)
row-ends p (x ∷ q) ne = ground arith

pub row_text-nil : row_text [] ≡ []
unfolding row_text
row_text-nil = refl

row_loop-nil : (prev count : ℕ) → row_loop [] false prev count ≡ count + 0
unfolding row_loop
row_loop-nil prev count = omega arith

-- One round: the cells of the row at hand, and the index behind its newline.
pub get_current_row-values :
    (n junk : ℕ) (p rest : Bytes) (row : List Field)
    → IsRow n row
    → junk ≢ quote
    → get_current_row (p ++ (row_text row ++ (newline ∷ rest))) (length p) junk
      ≡ some (some (values row), length p + length (row_text row) + 1)
unfolding get_current_row
get_current_row-values n junk p rest [] is hj = absurd (is.not_empty (row_text-nil))
get_current_row-values n junk p rest (f ∷ fs) is hj =
    let (fields, text_only) = cells-IsField (f ∷ fs) is.cells in
    rw (
      drop-length p (row_text (f ∷ fs) ++ (newline ∷ rest)),
      row_end-row_text rest f fs (length p) is.cells,
      row-ends p (row_text (f ∷ fs)) is.not_empty,
      substr-run p (row_text (f ∷ fs)) (newline ∷ rest) text_only,
      split-row_text f fs junk fields is.not_empty hj,
    )

pub row_loop-file_text :
    (n : ℕ) (rows : List (List Field)) (prev count : ℕ)
    → All (IsRow n) rows
    → row_loop (file_text rows) false prev count ≡ count + length rows
unfolding file_text
row_loop-file_text n [] prev count is = row_loop-nil prev count
row_loop-file_text n ([] ∷ rows) prev count (is, iss) = absurd (is.not_empty row_text-nil)
row_loop-file_text n ((f ∷ fs) ∷ rows) prev count (is, iss) =
    row_loop-row_text (file_text rows) f fs prev count is.cells (inr is.not_empty)
    ∙ row_loop-file_text n rows newline (count + 1) iss
    ∙ omega arith

pub columns-file_text :
    (f : Field) (fs : List Field) (rows : List (List Field)) (junk : ℕ)
    → All IsCell (f ∷ fs)
    → text (last_field f fs) ≢ []
    → column_loop (file_text ((f ∷ fs) ∷ rows)) false junk 0 ≡ some (length (f ∷ fs))
unfolding file_text
columns-file_text f fs rows junk h ne =
    column_loop-row_text (file_text rows) f fs junk 0 h ne ∙ ap some (omega arith)
