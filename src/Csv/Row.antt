-- ===== src/Csv/Row.antt =====
-- A printed row with its newline, as get_current_row, calculate_column_number and
-- calculate_row_number of Final/Server/main.c read it.
use cse344_coursework.Base.{
  ℕ, ◌+◌, ◌≡◌, refl, ◌≢◌, ap, All, false, some, List, [], ◌∷◌, ◌++◌, ◌⊎◌, inl, inr, Bytes, length,
  length-append, append_assoc, arith, ◌∙◌,
}
use cse344_coursework.Csv.{comma, quote, newline, toggle, row_end, column_loop, row_loop, at_eof}
use cse344_coursework.Csv.Split.{Field, blank, bare, quoted, text, row_text}
use cse344_coursework.Csv.Scan.{
  IsLine, IsCell, last_of, last_of-append, row_end-text, column_loop-text, row_loop-text,
}

-- The last cell of a row.
abbrev pub last_field : Field → List Field → Field
last_field f [] = f
last_field f (g ∷ fs) = last_field g fs

last_of-line :
    (prev : ℕ) (w : Bytes)
    → w ≢ []
    → All IsLine w
    → (last_of prev w ≢ newline) × (last_of prev w ≢ comma)
last_of-line prev [] ne h = absurd (ne refl)
last_of-line prev (x ∷ []) ne ((h0, hq, hc, hn, he), hs) = (hn, hc)
last_of-line prev (x ∷ y ∷ w) ne (h, hs) = last_of-line x (y ∷ w) (λ e. cc) hs

-- A cell with text ends neither in a newline nor in a comma.
last_of-text :
    (f : Field) (prev : ℕ)
    → IsCell f
    → text f ≢ []
    → (last_of prev (text f) ≢ newline) × (last_of prev (text f) ≢ comma)
unfolding text
last_of-text blank prev h ne = absurd (ne refl)
last_of-text (bare w) prev (ne, h) _ = last_of-line prev w ne h
last_of-text (quoted w) prev h ne =
    let e : last_of prev (quote ∷ (w ++ (quote ∷ []))) ≡ quote =
      last_of-append quote w (quote ∷ []) in
    ((λ n. omega (arith, e, n)), (λ n. omega (arith, e, n)))

last_of-cell : (f : Field) (prev : ℕ) → IsCell f → prev ≢ newline → last_of prev (text f) ≢ newline
unfolding text
last_of-cell blank prev h p = p
last_of-cell (bare w) prev (ne, h) p = (last_of-line prev w ne h).0
last_of-cell (quoted w) prev h p = (last_of-text (quoted w) prev h (λ e. cc)).0

module _ (rest : Bytes) where
  row_end-newline : (cur : ℕ) → row_end (newline ∷ rest) false cur cur ≡ some (cur, cur + 1)
  unfolding row_end toggle
  row_end-newline cur = refl

  row_end-comma :
      (w : Bytes) (cur : ℕ)
      → row_end (comma ∷ w) false cur cur ≡ row_end w false (cur + 1) (cur + 1)
  unfolding row_end toggle
  row_end-comma w cur = refl

  column_loop-newline :
      (prev size : ℕ)
      → prev ≢ comma
      → column_loop (newline ∷ rest) false prev size ≡ some (size + 1)
  unfolding column_loop toggle
  column_loop-newline prev size ne = ground arith

  column_loop-comma :
      (w : Bytes) (prev size : ℕ)
      → column_loop (comma ∷ w) false prev size ≡ column_loop w false comma (size + 1)
  unfolding column_loop toggle
  column_loop-comma w prev size = refl

  row_loop-newline :
      (prev count : ℕ)
      → prev ≢ newline
      → row_loop (newline ∷ rest) false prev count ≡ row_loop rest false newline (count + 1)
  unfolding row_loop toggle
  row_loop-newline prev count ne = ground arith

  row_loop-comma :
      (w : Bytes) (prev count : ℕ)
      → at_eof w ≡ false
      → row_loop (comma ∷ w) false prev count ≡ row_loop w false comma count
  unfolding row_loop toggle
  row_loop-comma w prev count e = rw e

  at_eof-newline : at_eof (newline ∷ rest) ≡ false
  unfolding at_eof
  at_eof-newline = refl

  at_eof-comma : (w : Bytes) → at_eof (comma ∷ w) ≡ false
  unfolding at_eof
  at_eof-comma w = refl

  at_eof-row_text :
      (f : Field) (fs : List Field)
      → All IsCell (f ∷ fs)
      → at_eof (row_text (f ∷ fs) ++ (newline ∷ rest)) ≡ false
  unfolding row_text
  at_eof-row_text f [] (h, _) = (row_loop-text f (newline ∷ rest) 0 0 h at_eof-newline).1
  at_eof-row_text f (g ∷ fs) (h, hs) =
      let w = row_text (g ∷ fs) ++ (newline ∷ rest) in
      ap at_eof (append_assoc (text f) (comma ∷ row_text (g ∷ fs)) (newline ∷ rest))
      ∙ (row_loop-text f (comma ∷ w) 0 0 h (at_eof-comma w)).1

  last-ne :
      (f : Field) (prev : ℕ)
      → IsCell f
      → (prev ≢ newline) ⊎ (text f ≢ [])
      → last_of prev (text f) ≢ newline
  last-ne f prev h (inl p) = last_of-cell f prev h p
  last-ne f prev h (inr ne) = (last_of-text f prev h ne).0

  -- The end of the row, and the next index.
  pub row_end-row_text :
      (f : Field) (fs : List Field) (cur : ℕ)
      → All IsCell (f ∷ fs)
      → row_end (row_text (f ∷ fs) ++ (newline ∷ rest)) false cur cur
        ≡ some (cur + length (row_text (f ∷ fs)), cur + length (row_text (f ∷ fs)) + 1)
  unfolding row_text
  row_end-row_text f [] cur (h, _) =
      row_end-text f (newline ∷ rest) cur h ∙ row_end-newline (cur + length (text f))
  row_end-row_text f (g ∷ fs) cur (h, hs) =
      ap (λ t. row_end t false cur cur)
        (append_assoc (text f) (comma ∷ row_text (g ∷ fs)) (newline ∷ rest))
      ∙ row_end-text f (comma ∷ (row_text (g ∷ fs) ++ (newline ∷ rest))) cur h
      ∙ row_end-comma (row_text (g ∷ fs) ++ (newline ∷ rest)) (cur + length (text f))
      ∙ row_end-row_text g fs (cur + length (text f) + 1) hs
      ∙ ap (λ k. some (k, k + 1))
          (omega (arith, length-append (text f) (comma ∷ row_text (g ∷ fs))))

  -- The columns are the cells, if the last one is not blank.
  pub column_loop-row_text :
      (f : Field) (fs : List Field) (prev size : ℕ)
      → All IsCell (f ∷ fs)
      → text (last_field f fs) ≢ []
      → column_loop (row_text (f ∷ fs) ++ (newline ∷ rest)) false prev size
        ≡ some (size + length (f ∷ fs))
  unfolding row_text
  column_loop-row_text f [] prev size (h, _) ne =
      column_loop-text f (newline ∷ rest) prev size h
      ∙ column_loop-newline (last_of prev (text f)) size (last_of-text f prev h ne).1
  column_loop-row_text f (g ∷ fs) prev size (h, hs) ne =
      ap (λ t. column_loop t false prev size)
        (append_assoc (text f) (comma ∷ row_text (g ∷ fs)) (newline ∷ rest))
      ∙ column_loop-text f (comma ∷ (row_text (g ∷ fs) ++ (newline ∷ rest))) prev size h
      ∙ column_loop-comma (row_text (g ∷ fs) ++ (newline ∷ rest)) (last_of prev (text f)) size
      ∙ column_loop-row_text g fs comma (size + 1) hs ne
      ∙ ap some (omega arith)

  -- One row more.
  pub row_loop-row_text :
      (f : Field) (fs : List Field) (prev count : ℕ)
      → All IsCell (f ∷ fs)
      → (prev ≢ newline) ⊎ (row_text (f ∷ fs) ≢ [])
      → row_loop (row_text (f ∷ fs) ++ (newline ∷ rest)) false prev count
        ≡ row_loop rest false newline (count + 1)
  unfolding row_text
  row_loop-row_text f [] prev count (h, _) ne =
      (row_loop-text f (newline ∷ rest) prev count h at_eof-newline).0
      ∙ row_loop-newline (last_of prev (text f)) count (last-ne f prev h ne)
  row_loop-row_text f (g ∷ fs) prev count (h, hs) ne =
      ap (λ t. row_loop t false prev count)
        (append_assoc (text f) (comma ∷ row_text (g ∷ fs)) (newline ∷ rest))
      ∙ (row_loop-text f (comma ∷ (row_text (g ∷ fs) ++ (newline ∷ rest))) prev count h
          (at_eof-comma (row_text (g ∷ fs) ++ (newline ∷ rest)))).0
      ∙ row_loop-comma (row_text (g ∷ fs) ++ (newline ∷ rest)) (last_of prev (text f)) count
          (at_eof-row_text g fs hs)
      ∙ row_loop-row_text g fs comma count hs (inl (λ e. omega arith))
