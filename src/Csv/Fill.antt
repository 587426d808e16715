-- ===== src/Csv/Fill.antt =====
-- read_csv of Final/Server/main.c on a whole file: the table holds the values of the printed rows.
use mathlib.Core.Path.{subst}
use cse344_coursework.Base.{
  ℕ, zero, suc, ◌+◌, ◌≤◌, ◌<◌, ◌≡◌, refl, ◌≢◌, ap, All, true, false, ◌&&◌, Option, none, some, List,
  [], ◌∷◌, ◌++◌, ltb, leb, map, take, set, replicate, Bytes, length, length-append, append_assoc,
  append-nil, arith, ◌∙◌, sym,
}
use cse344_coursework.Csv.{
  quote, newline, get_current_row, calculate_column_number, column_loop, calculate_row_number,
  row_loop, write_row, set_table_loop, read_csv, Rows,
}
use cse344_coursework.Csv.Split.{Field, text, row_text, value}
use cse344_coursework.Csv.RoundTrip.{values}
use cse344_coursework.Csv.Row.{last_field}
use cse344_coursework.Csv.File.{
  file_text, IsRow, row_text-nil, row_loop-file_text, columns-file_text, get_current_row-values,
}

length-values : (fs : List Field) → length (values fs) ≡ length fs
unfolding values
length-values [] = refl
length-values (f ∷ fs) = ap suc (length-values fs)

take-length : (cells : List Bytes) → take (length cells) cells ≡ cells
take-length [] = refl
take-length (c ∷ cells) = ap (λ t. c ∷ t) (take-length cells)

set-length :
    (done : Rows) (v w : Option (List Bytes)) (rest : Rows)
    → set (done ++ (v ∷ rest)) (length done) w ≡ done ++ (w ∷ rest)
set-length [] v w rest = refl
set-length (d ∷ done) v w rest = ap (λ t. d ∷ t) (set-length done v w rest)

write_row-next :
    (cell : Bytes) (cells : List Bytes) (done rest : Rows)
    → write_row (length (cell ∷ cells)) (length done) (cell ∷ cells) (done ++ (none ∷ rest))
      ≡ some (done ++ (some (cell ∷ cells) ∷ rest))
unfolding write_row
write_row-next cell cells done rest =
    let room : length done < length (done ++ (none ∷ rest)) =
      omega (arith, length-append done (none ∷ rest)) in
    let e : (leb (length (cell ∷ cells)) (length (cell ∷ cells))
          && ltb (length done) (length (done ++ (none ∷ rest))))
        ≡ true =
      ground arith in
    rw (e, take-length cells, set-length done none (some (cell ∷ cells)) rest)

write_row-values :
    (n : ℕ) (f : Field) (fs : List Field) (done rest : Rows)
    → length (f ∷ fs) ≡ n
    → write_row n (length done) (values (f ∷ fs)) (done ++ (none ∷ rest))
      ≡ some (done ++ (some (values (f ∷ fs)) ∷ rest))
unfolding values
write_row-values n f fs done rest e =
    let w : length (values (f ∷ fs)) ≡ n = length-values (f ∷ fs) ∙ e in
    subst
      (λ k.
        write_row k (length done) (values (f ∷ fs)) (done ++ (none ∷ rest))
        ≡ some (done ++ (some (values (f ∷ fs)) ∷ rest)))
      w (write_row-next (value f) (values fs) done rest)

abbrev pub filled : List (List Field) → Rows
filled rows = map (λ row. some (values row)) rows

set_table_loop-end :
    (fuel n junk i : ℕ) (file : Bytes) (table : Rows)
    → set_table_loop fuel n junk file (length file) i table ≡ some table
unfolding set_table_loop
set_table_loop-end zero n junk i file table = ground arith
set_table_loop-end (suc fuel) n junk i file table = ground arith

-- A round that finds a row.
set_table_loop-round :
    (fuel n junk cur next i : ℕ) (file : Bytes) (cells : List Bytes) (table table' : Rows)
    → cur < length file
    → get_current_row file cur junk ≡ some (some cells, next)
    → write_row n i cells table ≡ some table'
    → set_table_loop (suc fuel) n junk file cur i table
      ≡ set_table_loop fuel n junk file next (i + 1) table'
unfolding set_table_loop
set_table_loop-round fuel n junk cur next i file cells table table' h g w =
    let here : ltb cur (length file) ≡ true = ground arith in rw (here, g, w)

set_table_loop-file_text :
    (n junk fuel : ℕ) (file p : Bytes) (rows : List (List Field)) (done : Rows)
    → file ≡ p ++ file_text rows
    → length rows ≤ fuel
    → All (IsRow n) rows
    → junk ≢ quote
    → set_table_loop fuel n junk file
        (length p)
        (length done)
        (done ++ replicate (length rows) none)
      ≡ some (done ++ filled rows)
unfolding file_text
set_table_loop-file_text n junk fuel file p [] done e le is hj =
    let at_end : length p ≡ length file = ap length (sym (append-nil p) ∙ sym e) in
    rw (at_end, append-nil) (set_table_loop-end fuel n junk (length done) file done)
set_table_loop-file_text n junk zero file p (row ∷ rows) done e le is hj = absurd (omega arith)
set_table_loop-file_text n junk (suc fuel) file p ([] ∷ rows) done e le (is, iss) hj =
    absurd (is.not_empty row_text-nil)
set_table_loop-file_text n junk (suc fuel) file p ((f ∷ fs) ∷ rows) done e le (is, iss) hj =
    let row = row_text (f ∷ fs) in
    let p' = p ++ (row ++ (newline ∷ [])) in
    let done' = done ++ (some (values (f ∷ fs)) ∷ []) in
    let e' : file ≡ p' ++ file_text rows = e ∙ simp append_assoc in
    let i1 : length p + length row + 1 ≡ length p' =
      omega (arith, length-append p (row ++ (newline ∷ [])), length-append row (newline ∷ [])) in
    let i2 : length done + 1 ≡ length done' =
      omega (arith, length-append done (some (values (f ∷ fs)) ∷ [])) in
    let inside : length p < length file =
      omega (arith, i1, ap length e', length-append p' (file_text rows)) in
    set_table_loop-round fuel n junk (length p) (length p + length row + 1) (length done) file
      (values (f ∷ fs)) _ _ inside
      (ap (λ t. get_current_row t (length p) junk) e
        ∙ get_current_row-values n junk p (file_text rows) (f ∷ fs) is hj)
      (write_row-values n f fs done (replicate (length rows) none) is.width)
    ∙ rw
        (
          i1,
          i2,
          sym (append_assoc done (some (values (f ∷ fs)) ∷ []) (replicate (length rows) none)),
        )
        (set_table_loop-file_text n junk fuel file p' rows done' e' (omega arith) iss hj
          ∙ ap some (append_assoc done (some (values (f ∷ fs)) ∷ []) (filled rows)))

length-file_text : (rows : List (List Field)) → length rows ≤ length (file_text rows)
unfolding file_text
length-file_text [] = omega arith
length-file_text (row ∷ rows) =
    omega (arith, length-file_text rows, length-append (row_text row) (newline ∷ file_text rows))

-- `read_csv` on a file of printed rows, a newline behind each, allocates as many rows and columns
-- as the file has and fills the table with the cells' values, in order and without a fault: cells may
-- hold commas and newlines in quotes, and empty cells give "null". All rows have as many cells as
-- the first, the last cell of the first has text, no row is the empty text, no character is the
-- byte 255, and the uninitialised `prev` of `split` does not hold a quote.
pub read_csv-file_text :
    (f : Field) (fs : List Field) (rows : List (List Field)) (junk_r junk_c junk : ℕ)
    → All (IsRow (length (f ∷ fs))) ((f ∷ fs) ∷ rows)
    → text (last_field f fs) ≢ []
    → junk ≢ quote
    → read_csv (file_text ((f ∷ fs) ∷ rows)) junk_r junk_c junk ≡ some (filled ((f ∷ fs) ∷ rows))
unfolding read_csv calculate_column_number calculate_row_number
read_csv-file_text f fs rows junk_r junk_c junk (is, iss) ne hj =
    let all_rows = (f ∷ fs) ∷ rows in
    let columns : column_loop (file_text all_rows) false junk_c 0 ≡ some (length (f ∷ fs)) =
      columns-file_text f fs rows junk_c is.cells ne in
    let count : row_loop (file_text all_rows) false junk_r 0 ≡ length all_rows =
      row_loop-file_text (length (f ∷ fs)) all_rows junk_r 0 (is, iss) ∙ omega arith in
    rw (columns, count)
      (set_table_loop-file_text (length (f ∷ fs)) junk (length (file_text all_rows))
        (file_text all_rows) [] all_rows [] refl (length-file_text all_rows) (is, iss) hj)
