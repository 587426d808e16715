-- ===== src/Query/Answer.antt =====
-- What SELECT answers: parse_query of Final/Server/main.c on well-formed queries.
use mathlib.Core.Path.{subst}
use cse344_coursework.Base.{
  ℕ, suc, ◌+◌, ◌≡◌, refl, ◌≢◌, ap, ◌∙◌, sym, All, Bool, true, false, ◌||◌, some, List, [], ◌∷◌,
  ◌++◌, Bool-cases, inl, inr, ◌>>=◌, Bytes, codes, str_eq, length, replicate, arith,
}
use cse344_coursework.Tokens.{split2}
use cse344_coursework.Query.{
  Row, Table, find_column, which_header, mark_columns, print_marked, select, parse_query,
}
use cse344_coursework.Query.Select.{picked, render, or_star, Fits, print_rows-seal}
use cse344_coursework.Query.Marks.{mask_of, Distinct, elem, find_column-some, mark_columns-mask}

-- Every row has as many cells as the header.
abbrev pub IsTable : Row → Table → Type 0
IsTable names rows = All (λ (row : Row). length row ≡ length names) rows

abbrev has_true : List Bool → Bool
has_true [] = false
has_true (m ∷ ms) = m || has_true ms

append-ne-nil_left : (t s : Bytes) → t ≢ [] → t ++ s ≢ []
append-ne-nil_left [] s h = absurd (h refl)
append-ne-nil_left (x ∷ t) s h = λ e. cc

blank-ne-nil : (cell : Bytes) → cell ++ codes " " ≢ []
blank-ne-nil [] = λ e. cc
blank-ne-nil (x ∷ cell) = λ e. cc

picked-ne-nil :
    (mask : List Bool) (row : Row)
    → length mask ≡ length row
    → has_true mask ≡ true
    → picked mask row ≢ []
unfolding picked
picked-ne-nil [] row h t = cc
picked-ne-nil (m ∷ mask) [] h t = absurd (omega arith)
picked-ne-nil (true ∷ mask) (cell ∷ row) h t =
    append-ne-nil_left (cell ++ codes " ") (picked mask row) (blank-ne-nil cell)
picked-ne-nil (false ∷ mask) (cell ∷ row) h t = picked-ne-nil mask row (omega arith) t

length-mask : (f : Bytes → Bool) (names : Row) → length (mask_of f names) ≡ length names
unfolding mask_of
length-mask f [] = refl
length-mask f (n ∷ names) = ap suc (length-mask f names)

All-Fits :
    (mask : List Bool) (names : Row) (rows : Table)
    → length mask ≡ length names
    → has_true mask ≡ true
    → IsTable names rows
    → All (Fits mask) rows
All-Fits mask names [] h t is = tt
All-Fits mask names (row ∷ rows) h t (is, iss) =
    ((omega arith, picked-ne-nil mask row (omega arith) t), All-Fits mask names rows h t iss)

or_star-false : (mask : List Bool) → or_star false mask ≡ mask
or_star-false [] = refl
or_star-false (m ∷ mask) = ground (arith, or_star-false mask)

replicate-mask : (names : Row) → replicate (length names) false ≡ mask_of (λ n. false) names
unfolding mask_of
replicate-mask [] = refl
replicate-mask (n ∷ names) = ap (λ m. false ∷ m) (replicate-mask names)

found-has_true :
    (f : Bytes → Bool) (c : Bytes) (names : Row) (j k : ℕ)
    → ((n : Bytes) → str_eq n c ≡ true → f n ≡ true)
    → find_column c names j ≡ some k
    → has_true (mask_of f names) ≡ true
unfolding mask_of find_column
found-has_true f c [] j k hf h = cc
found-has_true f c (n ∷ names) j k hf h = elim (Bool-cases (str_eq n c)) [
  | inl e ↦ rw (hf n e)
  | inr e ↦ ground (arith, found-has_true f c names (j + 1) k hf)
]

select-marked :
    (names : Row) (c : Bytes) (cols rest : List Bytes) (j : ℕ)
    → Distinct names
    → str_eq c (codes "FROM") ≡ false
    → All (λ t. str_eq t (codes "FROM") ≡ false) cols
    → find_column c names 0 ≡ some j
    → mark_columns names
        (c ∷ (cols ++ (codes "FROM" ∷ rest)))
        (replicate (length names) false)
        false
      ≡ some (mask_of (elem (c ∷ cols)) names, true)
unfolding mark_columns which_header
select-marked names c cols rest j d hc h e =
    let (i, ei, es) = find_column-some (λ n. false) c names 0 j d e in
    let same : j ≡ i = omega (arith, ei) in
    rw (hc, e, same, replicate-mask names, es)
      (mark_columns-mask names (λ n. str_eq n c) cols rest d h)

-- SELECT with column names answers every row of the table, the header first: the cells of the named
-- columns in table order, a blank behind each and a newline behind the row. The first name is a
-- column, the column names differ pairwise, and every row has as many cells as the header.
pub select-render :
    (names : Row) (rows : Table) (c : Bytes) (cols rest : List Bytes) (j : ℕ)
    → Distinct names
    → IsTable names rows
    → str_eq c (codes "FROM") ≡ false
    → str_eq c (codes "DISTINCT") ≡ false
    → str_eq c (codes "*") ≡ false
    → All (λ t. str_eq t (codes "FROM") ≡ false) cols
    → find_column c names 0 ≡ some j
    → select (names ∷ rows) (c ∷ (cols ++ (codes "FROM" ∷ rest)))
      ≡ some (render (mask_of (elem (c ∷ cols)) names) (names ∷ rows))
unfolding select
select-render names rows c cols rest j d is hf hd hs h e =
    let mask = mask_of (elem (c ∷ cols)) names in
    let marked = found-has_true (elem (c ∷ cols)) c names 0 j (λ n q. ground arith) e in
    let fits : All (Fits (or_star false mask)) (names ∷ rows) =
      subst (λ m. All (Fits m) (names ∷ rows)) (sym (or_star-false mask))
        (All-Fits mask names (names ∷ rows) (length-mask (elem (c ∷ cols)) names) marked
          (refl, is)) in
    let table = names ∷ rows in
    rw (hd, hs)
      (ap (λ x. x >>= print_marked false table) (select-marked names c cols rest j d hf h e)
        ∙ print_rows-seal mask true false names rows refl fits
        ∙ ap (λ m. some (render m table)) (or_star-false mask))

-- A query whose tokens are SELECT, a column of the table, other tokens, and FROM with what follows:
-- if the column names are different and every row is as long as the header, the answer holds for the
-- header and each row the cells of the columns that a token names, in the table's order and with a
-- blank behind each, and a newline behind the row; the table is unchanged. The first column is not
-- named DISTINCT, `*` or FROM.
pub parse_query-select :
    (names : Row) (rows : Table) (query c : Bytes) (cols rest : List Bytes) (j : ℕ)
    → split2 (some query) b' ' b',' ≡ some (codes "SELECT" ∷ c ∷ (cols ++ (codes "FROM" ∷ rest)))
    → Distinct names
    → IsTable names rows
    → str_eq c (codes "FROM") ≡ false
    → str_eq c (codes "DISTINCT") ≡ false
    → str_eq c (codes "*") ≡ false
    → All (λ t. str_eq t (codes "FROM") ≡ false) cols
    → find_column c names 0 ≡ some j
    → parse_query (names ∷ rows) query
      ≡ some (names ∷ rows, some (render (mask_of (elem (c ∷ cols)) names) (names ∷ rows)))
unfolding parse_query
parse_query-select names rows query c cols rest j q d is hf hd hs h e =
    rw (q, select-render names rows c cols rest j d is hf hd hs h e)
