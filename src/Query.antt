-- ===== src/Query.antt =====
-- Queries on the table: which_header, parse_query and update_req_token of Final/Server/main.c,
-- between the sections that hold the mutex (RwLock). A table is its list of rows, the header first;
-- rSize is its length and cSize the length of each row, as read_csv makes them. Allocation succeeds.
-- `none` is undefined behaviour.
use cse344_coursework.Base.{
  ℕ, zero, suc, ◌+◌, ◌-◌, ◌≡◌, Bool, true, false, not, ◌||◌, Option, none, some, List, [], ◌∷◌,
  ◌++◌, ltb, leb, ◌==◌, if◌then◌else◌, ◌>>=◌, Bytes, codes, str_eq, length, drop, set, get_elem?,
  replicate,
}
use cse344_coursework.Tokens.{split2}
pub mod Answer
pub mod Marks
pub mod Select
pub mod Update

abbrev pub apostrophe : ℕ
apostrophe = 39

abbrev pub Row : Type 0
Row = List Bytes

abbrev pub Table : Type 0
Table = List Row

-- `which_header`: the first column with this name (-1 is `none`), from column `j` on.
unfoldable pub find_column : Bytes → Row → ℕ → Option ℕ
find_column token [] j = none
find_column token (name ∷ names) j =
    if str_eq name token then some j else find_column token names (j + 1)

unfoldable pub which_header : Row → Bytes → Option ℕ
unfolding find_column
which_header names token = find_column token names 0

-- `result` and `*size`: a null pointer, or a buffer with its room and the text in it.
pub data Buffer : Type 0 where
  null : Buffer
  holds : (room : ℕ) → Bytes → Buffer

-- `realloc` to `room` and `strcat`: the text and its NUL must fit.
unfoldable pub strcat : (room : ℕ) → Bytes → Bytes → Option Buffer
strcat room text s =
    if leb (length text + length s + 1) room then some (holds room (text ++ s)) else none

-- The two branches on `prev == NULL`: a fresh buffer is cleared first.
unfoldable pub put_cell : Bytes → Buffer → Option Buffer
unfolding strcat
put_cell cell null = strcat (length cell + 2) [] (cell ++ codes " ")
put_cell cell (holds room text) = strcat (room + (length cell + 1)) text (cell ++ codes " ")

-- `strcat(result, "\n")` with one byte more; a fresh buffer is not cleared here.
unfoldable pub put_newline : Buffer → Option Buffer
unfolding strcat
put_newline null = none
put_newline (holds room text) = strcat (room + 1) text (codes "\n")

-- `for (i = 1; strcmp(tokens[i], "FROM"); ++i)`: the marked columns and `p`. Without a FROM it reads
-- past the tokens.
unfoldable pub mark_columns : Row → List Bytes → List Bool → Bool → Option (List Bool × Bool)
unfolding which_header
mark_columns names [] header p = none
mark_columns names (t ∷ tokens) header p =
    if str_eq t (codes "FROM") then some (header, p) else elim (which_header names t) [
      | none ↦ mark_columns names tokens header p
      | some j ↦ mark_columns names tokens (set header j true) true
    ]

-- The cells of a row that are marked, or all for a star. `header` is null after DISTINCT, and is
-- read first.
unfoldable pub print_cells : Option (List Bool) → (star : Bool) → Row → Buffer → Option Buffer
unfolding put_cell
print_cells header star [] b = some b
print_cells none star (cell ∷ row) b = none
print_cells (some []) star (cell ∷ row) b = none
print_cells (some (mark ∷ header)) star (cell ∷ row) b = do
  b' ← if mark || star then put_cell cell b else some b
  print_cells (some header) star row b'

unfoldable pub print_rows : Option (List Bool) → (p star : Bool) → Table → Buffer → Option Buffer
unfolding print_cells put_newline
print_rows header p star [] b = some b
print_rows header p star (row ∷ rows) b = do
  b' ← print_cells header star row b
  b'' ← if p || star then put_newline b' else some b'
  print_rows header p star rows b''

-- The last `realloc` and `strcat(result, "\0")`.
unfoldable pub seal : Buffer → Option Bytes
unfolding strcat
seal null = none
seal (holds room text) = do b ← strcat (room + 1) text []; some text

-- The loops over the table once the columns are marked, and the end of the text.
unfoldable pub print_marked : (star : Bool) → Table → List Bool × Bool → Option Bytes
unfolding print_rows seal
print_marked star table (header, p) = print_rows (some header) p star table null >>= seal

-- The SELECT branch, `tokens` from index 1.
unfoldable pub select : Table → List Bytes → Option Bytes
unfolding mark_columns print_marked print_rows seal
select table [] = none
select [] (t ∷ tokens) = none
select (names ∷ rows) (t ∷ tokens) =
    if str_eq t (codes "DISTINCT")
    then print_rows none false (str_eq t (codes "*")) (names ∷ rows) null >>= seal
    else mark_columns names (t ∷ tokens) (replicate (length names) false) false
      >>= print_marked (str_eq t (codes "*")) (names ∷ rows)

-- `update_req_token`: the column that `c='v'` names gets the value in row `lrowi`. The index is
-- returned; if no column has the name, the loop leaves it at cSize.
unfoldable pub update_req_token : Table → Row → (lrowi : ℕ) → Bytes → Option (ℕ × Table)
unfolding which_header
update_req_token table names lrowi req = do
  subtokens ← split2 (some req) b'=' apostrophe
  name ← get_elem? subtokens 0
  elim (which_header names name) [
    | none ↦ some (length names, table)
    | some j ↦ (do
      v ← get_elem? subtokens 1
      row ← get_elem? table lrowi
      some (j, set table lrowi (set row j v)))
  ]

-- The loop over the assignments up to WHERE; `table[0][j]` is read also for j = cSize.
unfoldable pub assign : Table → Row → (lrowi : ℕ) → List Bytes → Buffer → Option (Table × Buffer)
unfolding update_req_token put_cell
assign table names lrowi [] b = some (table, b)
assign table names lrowi (t ∷ tokens) b = if str_eq t (codes "WHERE") then some (table, b) else do
  (j, table') ← update_req_token table names lrowi t
  name ← get_elem? names j
  b' ← put_cell name b
  assign table' names lrowi tokens b'

-- The first row from index i on whose cell in column `lcoli` is the value, which is read with each row.
unfoldable pub find_row : Table → (lcoli : ℕ) → Option Bytes → (i : ℕ) → Option (Option ℕ)
find_row [] lcoli value i = some none
find_row (row ∷ rows) lcoli value i = do
  v ← value
  cell ← get_elem? row lcoli
  if str_eq cell v then some (some i) else find_row rows lcoli value (i + 1)

-- The search behind the header, if the condition's column is there.
unfoldable pub row_in : (lcoli : Option ℕ) → Table → Option Bytes → Option (Option ℕ)
unfolding find_row
row_in none rows value = some none
row_in (some lcoli) rows value = find_row rows lcoli value 1

-- `lrowi` for the condition `k='v'`, the last token.
unfoldable pub matching_row : Row → Table → Bytes → Option (Option ℕ)
unfolding which_header row_in
matching_row names rows token = do
  cond ← split2 (some token) b'=' apostrophe
  key ← get_elem? cond 0
  row_in (which_header names key) rows (get_elem? cond 1)

abbrev pub updated_columns : Bytes
updated_columns = codes "UPDATED COLUMNS: "

unfoldable pub last_token : Bytes → List Bytes → Bytes
last_token t [] = t
last_token t (u ∷ tokens) = last_token u tokens

-- `if (lrowi != -1)`; the loop starts at `tokens[3]`.
unfoldable pub assign_found : Table → Row → Option ℕ → List Bytes → Option (Table × Buffer)
unfolding assign
assign_found table names none tokens = some (table, holds 18 updated_columns)
assign_found table names (some lrowi) tokens =
    assign table names lrowi tokens (holds 18 updated_columns)

-- Two bytes more, and the newline.
unfoldable pub close_answer : Table → Buffer → Option (Table × Bytes)
unfolding strcat
close_answer table null = none
close_answer table (holds room text) = do
  b ← strcat (room + 2) text (codes "\n")
  some (table, text ++ codes "\n")

-- The UPDATE branch: the new table and the answer. `t` is UPDATE, `tokens` those behind it.
unfoldable pub update : Table → Bytes → List Bytes → Option (Table × Bytes)
unfolding matching_row assign_found close_answer last_token
update [] t tokens = none
update (names ∷ rows) t tokens = do
  found ← matching_row names rows (last_token t tokens)
  (table, b) ← assign_found (names ∷ rows) names found (drop 2 tokens)
  close_answer table b

-- `parse_query`: the table afterwards and the answer (`none` inside is NULL).
unfoldable pub parse_query : Table → Bytes → Option (Table × Option Bytes)
unfolding select update
parse_query table query = do
  tokens ← split2 (some query) b' ' b','
  elim tokens [
    | [] ↦ some (table, none)
    | t ∷ ts ↦
        if str_eq t (codes "SELECT")
        then (do answer ← select table ts; some (table, some answer))
        else if str_eq t (codes "UPDATE")
        then (do (table', answer) ← update table t ts; some (table', some answer))
        else some (table, none)
  ]
