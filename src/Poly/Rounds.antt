-- ===== src/Poly/Rounds.antt =====
-- The rounds of HWs/HW2/lib.c: childRound, calcErrPrint and setCoefs. The write lock makes each one
-- step on the file's text. sscanf and fprintf of a number are parameters: `scan` gives the numbers
-- that the `%lf` of a line convert, `print` is `%.1lf`. What is printed is returned as numbers. The
-- file holds no zero byte.
pub mod Average
pub mod Both
pub mod Files
pub mod Phase
use cse344_coursework.Base.{
  ℕ, zero, suc, ◌+◌, ◌-◌, ◌≡◌, Bool, true, false, not, Option, none, some, List, [], ◌∷◌, ◌++◌,
  ◌==◌, ltb, if◌then◌else◌, ◌>>=◌, Bytes, length, get_elem?, take, drop, set,
}
use cse344_coursework.Lines.{fgets_lines}
use cse344_coursework.Potato.{strip_newline}
use cse344_coursework.Poly.Coefs.{set_coefs}
use cse344_coursework.Poly.{Arithmetic, pn, max_line, set_row_pairs}

abbrev pub poly_number : ℕ
poly_number = 8

-- `line[0]`, `line[1]` and so on, from the one with the number `t`; each call starts at the file's
-- beginning.
unfoldable pub read_rows : (file : Bytes) → (count t : ℕ) → Option (List Bytes)
read_rows file zero t = some []
read_rows file (suc count) t = do
  line ← set_row_pairs file t
  lines ← read_rows file count (t + 1)
  some (line ∷ lines)

-- The text that is written: the row with the number `cindex` has the value behind it; `t` is the
-- first row's number.
unfoldable pub rows_text : (cindex t : ℕ) → (value : Bytes) → List Bytes → Bytes
rows_text cindex t value [] = []
rows_text cindex t value (l ∷ lines) =
    (if cindex == t then l ++ (b',' ∷ value) else l)
    ++ (b'\n' ∷ rows_text cindex (t + 1) value lines)

-- Writing from the file's beginning; what is behind it stays.
unfoldable pub overwrite : (file text : Bytes) → Bytes
overwrite file text = text ++ drop (length text) file

-- `x[0]`, `y[0]`, `x[1]` and so on of the numbers of a line.
unfoldable pub split_pairs : {D : Type 0} → List D → List D × List D
split_pairs [] = ([], [])
split_pairs (x ∷ []) = (x ∷ [], [])
split_pairs (x ∷ y ∷ numbers) = let (xs, ys) = split_pairs numbers in (x ∷ xs, y ∷ ys)

-- What a conversion leaves in a variable: without one the variable stays.
unfoldable pub converted : {D : Type 0} → (number old : Option D) → Option D
converted none old = old
converted (some a) old = some a

module _ {D : Type 0} (A : Arithmetic D) (scan : Bytes → List D) (print : D → Bytes) where
  -- `lValue` of a row's text in a round. `none` is a number that the row does not have.
  unfoldable pub l_value : (round : ℕ) → (line : Bytes) → Option D
  unfolding split_pairs
  l_value round line = do
    let (x, y) = split_pairs (take 16 (scan line))
    at ← get_elem? x 7
    pn A (if round == 1 then 5 else 6) x y at

  unfoldable pub printed_coefs : (round : ℕ) → (line : Bytes) → Option (List D)
  unfolding split_pairs
  printed_coefs round line =
      let (x, y) = split_pairs (take 16 (scan line)) in
      if round == 2 then set_coefs A x y else some []

  -- The file behind the round, and the coefficients that are printed.
  unfoldable pub child_round : (file : Bytes) → (cindex round : ℕ) → Option (Bytes × List D)
  unfolding overwrite
  child_round file cindex round = do
    lines ← read_rows file poly_number 0
    line ← get_elem? lines cindex
    value ← l_value round line
    coefs ← printed_coefs round line
    some (overwrite file (rows_text cindex 0 (print value) lines), coefs)

  -- The rounds of children in the order in which they get the lock.
  unfoldable pub child_rounds : (file : Bytes) → (round : ℕ) → (order : List ℕ) → Option Bytes
  child_rounds file round [] = some file
  child_rounds file round (cindex ∷ order) = do
    (file', coefs) ← child_round file cindex round
    child_rounds file' round order

  -- `ry` and `lValue` behind the sscanf of a line.
  unfoldable pub line_error :
      (round : ℕ) → (line : Bytes) → (ry value : Option D) → Option D × Option D
  unfolding converted
  line_error round line ry value = (
    converted (get_elem? (scan line) 15) ry,
    converted (get_elem? (scan line) (if round == 1 then 16 else 17)) value,
  )

  unfoldable pub error_loop :
      (abs : D → D) (round : ℕ) → (average : D) → (ry value : Option D) → List Bytes → Option D
  unfolding line_error
  error_loop abs round average ry value [] = some average
  error_loop abs round average ry value (l ∷ lines) = do
    let (ry', value') = line_error round (strip_newline l) ry value
    r ← ry'
    v ← value'
    error_loop abs round (A.add average (abs (A.sub r v))) ry' value' lines

  -- `calcErrPrint`; `eight` is POLY_NUMBER as a `double`. `none` is a value that was never read.
  unfoldable pub calc_err : (abs : D → D) (eight : D) (file : Bytes) (round : ℕ) → Option D
  unfolding error_loop
  calc_err abs eight file round = do
    sum ← error_loop abs round A.nought none none (take 8 (fgets_lines max_line file []))
    some (A.div sum eight)
