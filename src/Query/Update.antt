-- ===== src/Query/Update.antt =====
-- What UPDATE changes.
use cse344_coursework.Base.{
  ℕ, ◌+◌, ◌≤◌, ◌≡◌, refl, ◌≢◌, ap, ◌∙◌, All, false, Option, none, some, List, [], ◌∷◌, ◌++◌,
  Bool-cases, Option-cases, inl, inr, ◌>>=◌, Bytes, codes, str_eq, length, set, get_elem?,
  get_elem?-length, get_elem?-set_self, get_elem?-set_ne, length-set, set-set, set-get_elem?,
  lt_of_get_elem?, str_eq_iff, str_eq_refl, append-nil, append_assoc, arith,
}
use cse344_coursework.Tokens.{split2}
use cse344_coursework.Query.{
  Row, Table, Buffer, holds, apostrophe, which_header, find_row, row_in, matching_row,
  update_req_token, assign, strcat, update, updated_columns, last_token, close_answer, assign_found,
}
use cse344_coursework.Query.Select.{buf, buf-holds, put_cell-buf}

-- `find_row` returns the first row, counted from i, whose cell in the column is the value.
pub find_row-first :
    (rows : Table) (lcoli : ℕ) (v : Bytes) (i r : ℕ)
    → find_row rows lcoli (some v) i ≡ some (some r)
    → (before : Table) × (row : Row) × (after : Table) × (rows ≡ before ++ (row ∷ after))
      × (r ≡ i + length before)
      × (get_elem? row lcoli ≡ some v)
      × All (λ (other : Row). get_elem? other lcoli ≢ some v) before
unfolding find_row
find_row-first [] lcoli v i r h = cc
find_row-first (row ∷ rows) lcoli v i r h = elim (Option-cases (get_elem? row lcoli)) [
  | inl e ↦ cc (rw e at h)
  | inr (cell, e) ↦ elim (Bool-cases (str_eq cell v)) [
    | inl same ↦ ([], row, rows, refl, ground arith, e ∙ ap some ((str_eq_iff cell v).0 same), tt)
    | inr other ↦
        let (before, found, after, er, ei, ec, ne) =
          find_row-first rows lcoli v (i + 1) r (rw (e, other) at h) in
        (
          row ∷ before,
          found,
          after,
          ap (λ l. row ∷ l) er,
          omega (arith, ei),
          ec,
          ((λ q. ground (arith, str_eq_refl v)), ne),
        )
  ]
]

-- A token `name='value'`, and what it stands for.
pub record Assignment : Type 0 where
  pub token : Bytes
  pub name : Bytes
  pub column : ℕ
  pub value : Bytes

pub record IsAssignment (names : Row) (a : Assignment) : Type 0 where
  pub splits : split2 (some a.token) b'=' apostrophe ≡ some (a.name ∷ a.value ∷ [])
  pub found : which_header names a.name ≡ some a.column
  pub named : get_elem? names a.column ≡ some a.name
  pub not_where : str_eq a.token (codes "WHERE") ≡ false

abbrev pub tokens_of : List Assignment → List Bytes
tokens_of [] = []
tokens_of (a ∷ asgs) = a.token ∷ tokens_of asgs

-- The row after the assignments, in order, and the names in the answer.
pub applied : List Assignment → Row → Row
applied [] row = row
applied (a ∷ asgs) row = applied asgs (set row a.column a.value)

pub listed : List Assignment → Bytes
listed [] = []
listed (a ∷ asgs) = (a.name ++ codes " ") ++ listed asgs

update_req_token-set :
    (table : Table) (names row : Row) (lrowi : ℕ) (a : Assignment)
    → IsAssignment names a
    → get_elem? table lrowi ≡ some row
    → update_req_token table names lrowi a.token
      ≡ some (a.column, set table lrowi (set row a.column a.value))
unfolding update_req_token
update_req_token-set table names row lrowi a is at = ground (arith, is.splits, is.found, at)

pub assign-applied :
    (asgs : List Assignment) (table : Table) (names row : Row) (lrowi : ℕ) (rest : List Bytes)
    (t : Bytes)
    → All (IsAssignment names) asgs
    → get_elem? table lrowi ≡ some row
    → assign table names lrowi (tokens_of asgs ++ (codes "WHERE" ∷ rest)) (buf t)
      ≡ some (set table lrowi (applied asgs row), buf (t ++ listed asgs))
unfolding assign applied listed
assign-applied [] table names row lrowi rest t is at =
    rw (set-get_elem? table lrowi at, append-nil t)
assign-applied (a ∷ asgs) table names row lrowi rest t (is, iss) at =
    let row' = set row a.column a.value in
    let inside = lt_of_get_elem? table lrowi at in
    rw
      (
        is.not_where,
        update_req_token-set table names row lrowi a is at,
        is.named,
        put_cell-buf a.name t,
      )
      (assign-applied asgs (set table lrowi row') names row' lrowi rest (t ++ (a.name ++ codes " "))
          iss (get_elem?-set_self table lrowi row' inside)
        ∙ ap some (λ i. (
          set-set table lrowi row' (applied asgs row') i,
          buf (append_assoc t (a.name ++ codes " ") (listed asgs) i),
        )))

strcat-room :
    (room : ℕ) (t s : Bytes)
    → length t + length s + 1 ≤ room
    → strcat room t s ≡ some (holds room (t ++ s))
unfolding strcat
strcat-room room t s h = ground arith

close_answer-text :
    (table : Table) (text : Bytes)
    → text ≢ []
    → close_answer table (buf text) ≡ some (table, text ++ codes "\n")
unfolding close_answer
close_answer-text table text ne =
    rw (buf-holds text ne) (rw (strcat-room (length text + 1 + 2) text (codes "\n") (omega arith)))

find_row-lower :
    (rows : Table) (lcoli : ℕ) (value : Option Bytes) (i r : ℕ)
    → find_row rows lcoli value i ≡ some (some r)
    → i ≤ r
unfolding find_row
find_row-lower [] lcoli value i r h = cc
find_row-lower (row ∷ rows) lcoli none i r h = cc
find_row-lower (row ∷ rows) lcoli (some v) i r h =
    let (before, _, _, _, e, _, _) = find_row-first (row ∷ rows) lcoli v i r h in omega (arith, e)

row_in-lower :
    (lcoli : Option ℕ) (rows : Table) (value : Option Bytes) (r : ℕ)
    → row_in lcoli rows value ≡ some (some r)
    → 1 ≤ r
unfolding row_in
row_in-lower none rows value r h = cc
row_in-lower (some lcoli) rows value r h = find_row-lower rows lcoli value 1 r h

matching_row-lower :
    (names : Row) (rows : Table) (token : Bytes) (r : ℕ)
    → matching_row names rows token ≡ some (some r)
    → 1 ≤ r
unfolding matching_row
matching_row-lower names rows token r h =
    elim (Option-cases (split2 (some token) b'=' apostrophe)) [
      | inl e ↦ cc (rw e at h)
      | inr (cond, e) ↦ elim (Option-cases (get_elem? cond 0)) [
        | inl e1 ↦ cc (rw (e, e1) at h)
        | inr (key, e1) ↦
            row_in-lower (which_header names key) rows (get_elem? cond 1) r (rw (e, e1) at h)
      ]
    ]

-- The tables agree but in row r, which is behind the header and holds the new cells.
pub record Updated (table table' : Table) (r : ℕ) (row : Row) (asgs : List Assignment)
    : Type 0 where
  pub behind_header : 1 ≤ r
  pub changed : get_elem? table' r ≡ some (applied asgs row)
  pub others : (i : ℕ) → r ≢ i → get_elem? table' i ≡ get_elem? table i
  pub same_length : length table' ≡ length table

-- UPDATE with assignments to columns and a condition that some row meets: the assignments are made
-- in row r, which `matching_row` found and which is behind the header; no other row changes, so the
-- header does not, and the answer lists the assigned columns in order. Nothing is read or written out of bounds.
pub update-Updated :
    (names : Row) (rows : Table) (t table_name set_word : Bytes) (asgs : List Assignment)
    (cond : List Bytes) (r : ℕ) (row : Row)
    → matching_row names rows
        (last_token t (table_name ∷ set_word ∷ (tokens_of asgs ++ (codes "WHERE" ∷ cond))))
      ≡ some (some r)
    → get_elem? (names ∷ rows) r ≡ some row
    → All (IsAssignment names) asgs
    → (table' : Table) × (update
          (names ∷ rows)
          t
          (table_name ∷ set_word ∷ (tokens_of asgs ++ (codes "WHERE" ∷ cond)))
        ≡ some (table', (updated_columns ++ listed asgs) ++ codes "\n"))
      × Updated (names ∷ rows) table' r row asgs
unfolding update buf
update-Updated names rows t table_name set_word asgs cond r row m at is =
    let table = names ∷ rows in
    let text = updated_columns ++ listed asgs in
    let close_pair : Table × Buffer → Option (Table × Bytes) = λ p. close_answer p.0 p.1 in
    let finish_update : Option ℕ → Option (Table × Bytes) = λ found.
      assign_found table names found (tokens_of asgs ++ (codes "WHERE" ∷ cond)) >>= close_pair in
    (
      set table r (applied asgs row),
      ap (λ x. x >>= finish_update) m
          ∙ ap (λ x. x >>= close_pair)
              (assign-applied asgs table names row r cond updated_columns is at)
          ∙ close_answer-text (set table r (applied asgs row)) text (λ e. cc),
      record {
        behind_header =
            matching_row-lower names rows
              (last_token t (table_name ∷ set_word ∷ (tokens_of asgs ++ (codes "WHERE" ∷ cond)))) r
              m;
        changed = get_elem?-set_self table r (applied asgs row) (lt_of_get_elem? table r at);
        others = λ i ne. get_elem?-set_ne table (applied asgs row) ne;
        same_length = length-set table r (applied asgs row);
      },
    )

-- If an assignment names no column, the answer is built from `table[0][cSize]`, behind the header:
-- `update_req_token` returns cSize where the caller expects -1.
pub assign-unknown_column :
    (table : Table) (names : Row) (lrowi : ℕ) (t name : Bytes) (values rest : List Bytes)
    (b : Buffer)
    → str_eq t (codes "WHERE") ≡ false
    → split2 (some t) b'=' apostrophe ≡ some (name ∷ values)
    → which_header names name ≡ none
    → assign table names lrowi (t ∷ rest) b ≡ none
unfolding assign update_req_token
assign-unknown_column table names lrowi t name values rest b hw hs hn =
    ground (arith, hw, hs, hn, get_elem?-length names)
