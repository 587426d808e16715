-- ===== src/Csv/Scan.antt =====
-- How the three loops of Final/Server/main.c that look for the end of a row, and count columns and
-- rows, run over a printed row: get_current_row, calculate_column_number, calculate_row_number.
use cse344_coursework.Base.{
  ℕ, ◌+◌, ◌≡◌, refl, ◌≢◌, ap, All, Bool, true, false, [], ◌∷◌, ◌++◌, ◌⊎◌, inl, inr, Bytes, length,
  length-append, append_assoc, arith, ◌∙◌, sym,
}
use cse344_coursework.Csv.{
  comma, quote, newline, eof, toggle, row_end, column_loop, row_loop, at_eof,
}
use cse344_coursework.Csv.Split.{Field, blank, bare, quoted, text}

-- A character of a line outside quotes.
abbrev pub IsLine : ℕ → Type 0
IsLine x = (x ≢ 0) × (x ≢ quote) × (x ≢ comma) × (x ≢ newline) × (x ≢ eof)

-- And inside.
abbrev pub IsQuoted : ℕ → Type 0
IsQuoted x = (x ≢ 0) × (x ≢ quote) × (x ≢ eof)

abbrev pub IsCell : Field → Type 0
IsCell blank = Unit
IsCell (bare w) = (w ≢ []) × All IsLine w
IsCell (quoted w) = All IsQuoted w

-- What a run of characters does not contain, inside or outside quotes.
abbrev Kept : Bool → ℕ → Type 0
Kept dq x = (x ≢ quote) × (x ≢ eof) × ((dq ≡ true) ⊎ ((x ≢ newline) × (x ≢ 0) × (x ≢ comma)))

line-Kept : (w : Bytes) → All IsLine w → All (Kept false) w
line-Kept [] h = tt
line-Kept (x ∷ w) ((h0, hq, hc, hn, he), hs) = ((hq, he, inr (hn, h0, hc)), line-Kept w hs)

quoted-Kept : (w : Bytes) → All IsQuoted w → All (Kept true) w
quoted-Kept [] h = tt
quoted-Kept (x ∷ w) ((h0, hq, he), hs) = ((hq, he, inl refl), quoted-Kept w hs)

-- The last character, or what was before.
abbrev pub last_of : ℕ → Bytes → ℕ
last_of prev [] = prev
last_of prev (x ∷ w) = last_of x w

pub last_of-append : (prev : ℕ) (a b : Bytes) → last_of prev (a ++ b) ≡ last_of (last_of prev a) b
last_of-append prev [] b = refl
last_of-append prev (x ∷ a) b = last_of-append x a b

row_end-run :
    (w rest : Bytes) (dq : Bool) (cur : ℕ)
    → All (Kept dq) w
    → row_end (w ++ rest) dq cur cur ≡ row_end rest dq (cur + length w) (cur + length w)
unfolding row_end toggle
row_end-run [] rest dq cur h = ap (λ k. row_end rest dq k k) (omega arith)
row_end-run (x ∷ w) rest dq cur ((hq, he, hc), hs) =
    let step : row_end (x ∷ (w ++ rest)) dq cur cur ≡ row_end (w ++ rest) dq (cur + 1) (cur + 1) =
      ground arith in
    step ∙ row_end-run w rest dq (cur + 1) hs ∙ ap (λ k. row_end rest dq k k) (omega arith)

column_loop-run :
    (w rest : Bytes) (dq : Bool) (prev size : ℕ)
    → All (Kept dq) w
    → column_loop (w ++ rest) dq prev size ≡ column_loop rest dq (last_of prev w) size
unfolding column_loop toggle
column_loop-run [] rest dq prev size h = refl
column_loop-run (x ∷ w) rest dq prev size ((hq, he, hc), hs) =
    let step : column_loop (x ∷ (w ++ rest)) dq prev size ≡ column_loop (w ++ rest) dq x size =
      ground arith in
    step ∙ column_loop-run w rest dq x size hs

row_loop-run :
    (w rest : Bytes) (dq : Bool) (prev count : ℕ)
    → All (Kept dq) w
    → at_eof rest ≡ false
    → (row_loop (w ++ rest) dq prev count ≡ row_loop rest dq (last_of prev w) count)
      × (at_eof (w ++ rest) ≡ false)
unfolding row_loop toggle at_eof
row_loop-run [] rest dq prev count h e = (refl, e)
row_loop-run (x ∷ w) rest dq prev count ((hq, he, hc), hs) e =
    let (more, e') = row_loop-run w rest dq x count hs e in
    let step : row_loop (x ∷ (w ++ rest)) dq prev count ≡ row_loop (w ++ rest) dq x count =
      ground arith in
    (step ∙ more, ground arith)

row_end-quote_open :
    (w rest : Bytes) (cur : ℕ)
    → row_end ((quote ∷ w) ++ rest) false cur cur ≡ row_end (w ++ rest) true (cur + 1) (cur + 1)
unfolding row_end toggle
row_end-quote_open w rest cur = refl

row_end-quote_shut :
    (rest : Bytes) (cur : ℕ)
    → row_end (quote ∷ rest) true cur cur ≡ row_end rest false (cur + 1) (cur + 1)
unfolding row_end toggle
row_end-quote_shut rest cur = refl

column_loop-quote_open :
    (w rest : Bytes) (prev size : ℕ)
    → column_loop ((quote ∷ w) ++ rest) false prev size ≡ column_loop (w ++ rest) true quote size
unfolding column_loop toggle
column_loop-quote_open w rest prev size = refl

column_loop-quote_shut :
    (rest : Bytes) (prev size : ℕ)
    → column_loop (quote ∷ rest) true prev size ≡ column_loop rest false quote size
unfolding column_loop toggle
column_loop-quote_shut rest prev size = refl

at_eof-quote : (rest : Bytes) → at_eof (quote ∷ rest) ≡ false
unfolding at_eof
at_eof-quote rest = refl

row_loop-quote_open :
    (rest : Bytes) (prev count : ℕ)
    → at_eof rest ≡ false
    → row_loop (quote ∷ rest) false prev count ≡ row_loop rest true quote count
unfolding row_loop toggle
row_loop-quote_open rest prev count e = rw e

row_loop-quote_shut :
    (rest : Bytes) (prev count : ℕ)
    → at_eof rest ≡ false
    → row_loop (quote ∷ rest) true prev count ≡ row_loop rest false quote count
unfolding row_loop toggle
row_loop-quote_shut rest prev count e = rw e

-- The same over a cell, whatever it holds.
pub row_end-text :
    (f : Field) (rest : Bytes) (cur : ℕ)
    → IsCell f
    → row_end (text f ++ rest) false cur cur
      ≡ row_end rest false (cur + length (text f)) (cur + length (text f))
unfolding text
row_end-text blank rest cur h = row_end-run [] rest false cur tt
row_end-text (bare w) rest cur (ne, h) = row_end-run w rest false cur (line-Kept w h)
row_end-text (quoted w) rest cur h =
    row_end-quote_open (w ++ (quote ∷ [])) rest cur
    ∙ ap (λ t. row_end t true (cur + 1) (cur + 1)) (append_assoc w (quote ∷ []) rest)
    ∙ row_end-run w (quote ∷ rest) true (cur + 1) (quoted-Kept w h)
    ∙ row_end-quote_shut rest (cur + 1 + length w)
    ∙ ap (λ k. row_end rest false k k) (omega (arith, length-append w (quote ∷ [])))

pub column_loop-text :
    (f : Field) (rest : Bytes) (prev size : ℕ)
    → IsCell f
    → column_loop (text f ++ rest) false prev size
      ≡ column_loop rest false (last_of prev (text f)) size
unfolding text
column_loop-text blank rest prev size h = refl
column_loop-text (bare w) rest prev size (ne, h) =
    column_loop-run w rest false prev size (line-Kept w h)
column_loop-text (quoted w) rest prev size h =
    column_loop-quote_open (w ++ (quote ∷ [])) rest prev size
    ∙ ap (λ t. column_loop t true quote size) (append_assoc w (quote ∷ []) rest)
    ∙ column_loop-run w (quote ∷ rest) true quote size (quoted-Kept w h)
    ∙ column_loop-quote_shut rest (last_of quote w) size
    ∙ ap (λ p. column_loop rest false p size) (sym (last_of-append quote w (quote ∷ [])))

pub row_loop-text :
    (f : Field) (rest : Bytes) (prev count : ℕ)
    → IsCell f
    → at_eof rest ≡ false
    → (row_loop (text f ++ rest) false prev count
        ≡ row_loop rest false (last_of prev (text f)) count)
      × (at_eof (text f ++ rest) ≡ false)
unfolding text
row_loop-text blank rest prev count h e = (refl, e)
row_loop-text (bare w) rest prev count (ne, h) e =
    row_loop-run w rest false prev count (line-Kept w h) e
row_loop-text (quoted w) rest prev count h e =
    let (run, e') =
      row_loop-run w (quote ∷ rest) true quote count (quoted-Kept w h) (at_eof-quote rest) in
    (
      ap (λ t. row_loop (quote ∷ t) false prev count) (append_assoc w (quote ∷ []) rest)
          ∙ row_loop-quote_open (w ++ (quote ∷ rest)) prev count e'
          ∙ run
          ∙ row_loop-quote_shut rest (last_of quote w) count e
          ∙ ap (λ p. row_loop rest false p count) (sym (last_of-append quote w (quote ∷ []))),
      at_eof-quote ((w ++ (quote ∷ [])) ++ rest),
    )
