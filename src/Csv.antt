-- ===== src/Csv.antt =====
-- Reading the dataset: Final/Server/main.c, the functions from read_csv to split.
-- A file is the list of its bytes. `none` is undefined behaviour or a loop that does not end.
use cse344_coursework.Base.{
  ℕ, zero, suc, ◌+◌, ◌≡◌, Bool, true, false, not, ◌&&◌, ◌||◌, Option, none, some, List, [], ◌∷◌,
  ◌++◌, ◌==◌, ltb, leb, if◌then◌else◌, ◌>>=◌, Bytes, codes, length, take, drop, set, get_elem?,
  replicate,
}
use cse344_coursework.Tokens.{substr, keep_from}
pub mod File
pub mod Fill
pub mod RoundTrip
pub mod Row
pub mod Scan
pub mod Split

abbrev pub comma : ℕ
comma = b','

abbrev pub quote : ℕ
quote = b'"'

abbrev pub newline : ℕ
newline = 10

-- `EOF` stored in a `char`: the byte 255 compares equal to it.
abbrev pub eof : ℕ
eof = 255

abbrev is_none : Option ℕ → Bool
is_none none = true
is_none (some f) = false

-- `substr(save, from, i)`; it is never reached with `from == -1`.
cut : Bytes → Option ℕ → ℕ → List Bytes → Option (List Bytes)
cut save none i path = none
cut save (some f) i path = do t ← substr save f i; some (path ++ (t ∷ []))

-- The body of `if (common)`: whether a cell ends here, and which text it has.
emit : (c out : ℕ) → Bytes → (ch i : ℕ) → Bool → Option ℕ → ℕ → List Bytes → Option (List Bytes)
emit c out save ch i d_quate from prev path =
    if not (is_none from)
      || (ch == c && not d_quate)
      || (ch == 0 && prev == c)
      || (ch == out && prev == out)
    then (if is_none from && (ch == c || ch == 0 || prev == out)
        then some (path ++ (codes "null" ∷ []))
        else cut save from i path)
    else some path

-- The loop of `split`; `prev` is not initialised by the source, so it is a parameter.
pub csv_loop :
    (c out : ℕ)
    → Bytes
    → Bytes
    → ℕ
    → (out_detect d_quate : Bool) → Option ℕ
    → ℕ
    → List Bytes
    → Option (List Bytes)
csv_loop c out save [] i out_detect d_quate from prev path =
    emit c out save 0 i d_quate from prev path
csv_loop c out save (x ∷ str) i out_detect d_quate from prev path =
    let detect = if x == out then not out_detect else out_detect in
    let common = if detect || x == out then x == out else x == c in
    if common
    then (do
      path' ← emit c out save x i d_quate from prev path
      csv_loop c out save str (i + 1) detect (x == out) none x path')
    else csv_loop c out save str (i + 1) detect d_quate (keep_from from i) x path

-- `split(str, c, out, &size)`, where `junk` is what `prev` holds on entry.
pub split : Option Bytes → (c out junk : ℕ) → Option (List Bytes)
unfolding csv_loop emit cut substr keep_from
split none c out junk = some []
split (some str) c out junk = csv_loop c out str str 0 false false none junk []

pub toggle : ℕ → Bool → Bool
toggle x d_quate = if x == quote then not d_quate else d_quate

-- The loop of `get_current_row` from `cur`: the end of the row and the next `*curIndex`. Behind the
-- last byte the mapping reads as 0; inside quotes the loop runs on past the mapping.
pub row_end : Bytes → Bool → (cur to : ℕ) → Option (ℕ × ℕ)
row_end [] d_quate cur to = if d_quate then none else some (to, cur + 1)
row_end (x ∷ rest) d_quate cur to =
    let more = row_end rest (toggle x d_quate) (cur + 1) (to + 1) in
    if not (toggle x d_quate) && (x == newline || x == 0) then some (to, cur + 1) else more

-- The cells of the row at `cur` (`none` inside: an empty row) and the next index.
pub get_current_row : Bytes → (cur junk : ℕ) → Option (Option (List Bytes) × ℕ)
unfolding row_end toggle
get_current_row file cur junk = do
  (to, next) ← row_end (drop cur file) false cur cur
  if cur == to then some (none, next) else do
    cell ← substr file cur to
    cells ← split (some cell) comma quote junk
    some (some cells, next)

pub column_loop : Bytes → Bool → (prev size : ℕ) → Option ℕ
column_loop [] d_quate prev size =
    if d_quate then none else some (if prev == comma then size else size + 1)
column_loop (x ∷ rest) d_quate prev size =
    let more =
      column_loop rest (toggle x d_quate) x
        (if not (toggle x d_quate) && x == comma then size + 1 else size) in
    if not (toggle x d_quate) && (x == newline || x == eof)
    then some (if prev == comma then size else size + 1)
    else more

-- The columns of the first line; a quote that is never closed makes it wait for ever.
pub calculate_column_number : Bytes → (junk : ℕ) → Option ℕ
unfolding column_loop toggle
calculate_column_number file junk = column_loop file false junk 0

pub at_eof : Bytes → Bool
at_eof [] = true
at_eof (y ∷ rest) = y == eof

-- A newline behind a newline takes one off and puts one back.
pub row_loop : Bytes → Bool → (prev count : ℕ) → ℕ
row_loop [] d_quate prev count = count
row_loop (x ∷ rest) d_quate prev count =
    let ended = not (toggle x d_quate) && x == newline in
    let count' = if ended then (if prev == x then count else count + 1) else count in
    let last = not (x == newline) && at_eof rest in
    let more = row_loop rest (toggle x d_quate) x (if last then count' + 1 else count') in
    if x == eof then count else more

pub calculate_row_number : Bytes → (junk : ℕ) → ℕ
unfolding row_loop at_eof toggle
calculate_row_number file junk = row_loop file false junk 0

-- A row that was allocated and not yet written is `none`.
abbrev pub Rows : Type 0
Rows = List (Option (List Bytes))

-- `table[i][j] = rowCells[j]` for j < cSize, with every index checked.
pub write_row : (c_size i : ℕ) → List Bytes → Rows → Option Rows
write_row zero i cells table = some table
write_row (suc c) i cells table =
    if leb (suc c) (length cells) && ltb i (length table)
    then some (set table i (some (take (suc c) cells)))
    else none

-- Each round moves `curIndex` on, so `length file` rounds are enough. An empty row is passed over,
-- and `i` still counts it.
pub set_table_loop : ℕ → (c_size junk : ℕ) → Bytes → (cur i : ℕ) → Rows → Option Rows
set_table_loop zero c_size junk file cur i table =
    if ltb cur (length file) then none else some table
set_table_loop (suc fuel) c_size junk file cur i table =
    if ltb cur (length file)
    then (do
      (row, next) ← get_current_row file cur junk
      elim row [
        | none ↦ set_table_loop fuel c_size junk file next (i + 1) table
        | some cells ↦ (do
          table' ← write_row c_size i cells table
          set_table_loop fuel c_size junk file next (i + 1) table')
      ])
    else some table

-- `read_csv`: the sizes, the allocation, and the rows. The three `junk` values are those of the
-- uninitialised `prev` in the three callees.
pub read_csv : Bytes → (junk_r junk_c junk : ℕ) → Option Rows
unfolding set_table_loop write_row
read_csv file junk_r junk_c junk = do
  c_size ← calculate_column_number file junk_c
  let r_size = calculate_row_number file junk_r
  set_table_loop (length file) c_size junk file 0 0 (replicate r_size none)
