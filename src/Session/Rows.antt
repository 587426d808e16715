-- ===== src/Session/Rows.antt =====
-- A SELECT over a connection: the records that thread_pool_handler of Final/Server/main.c sends are
-- the rows.
use mathlib.Core.Path.{subst, sym}
use cse344_coursework.Base.{
  ℕ, ◌<◌, ◌≡◌, refl, ◌≢◌, ap, ◌∙◌, All, Bool, false, some, List, [], ◌∷◌, ◌++◌, map, Bytes, codes,
  str_eq, length, arith,
}
use cse344_coursework.Tokens.{split2}
use cse344_coursework.Tokens.Runs.{runs}
use cse344_coursework.Tokens.Join.{IsWord, terminated, runs-terminated}
use cse344_coursework.Query.{Row, Table, find_column}
use cse344_coursework.Query.Select.{picked, render}
use cse344_coursework.Query.Marks.{mask_of, Distinct, elem}
use cse344_coursework.Query.Answer.{IsTable, parse_query-select}
use cse344_coursework.Session.{Worker, buffer_size, respond}
use cse344_coursework.Session.Protocol.{Answers, is_newline, reply, respond-Answers}

-- A character of a cell.
abbrev pub IsPlain : ℕ → Type 0
IsPlain x = (x ≢ 0) × (is_newline x ≡ false)

-- The printed row is text of one line that fits in a buffer.
abbrev pub Printable : List Bool → Row → Type 0
Printable mask row =
    (picked mask row ≢ [])
    × All IsPlain (picked mask row)
    × (length (picked mask row) < buffer_size)

All-append {ℓ} : (P : ℕ → Type ℓ) (p q : Bytes) → All P p → All P q → All P (p ++ q)
All-append P [] q h k = k
All-append P (x ∷ p) q (h, hs) k = (h, All-append P p q hs k)

plain-not_newline : (q : Bytes) → All IsPlain q → All (λ x. is_newline x ≡ false) q
plain-not_newline [] h = tt
plain-not_newline (x ∷ q) ((_, h), hs) = (h, plain-not_newline q hs)

plain-no_nul : (q : Bytes) → All IsPlain q → All (λ x. x ≢ 0) q
plain-no_nul [] h = tt
plain-no_nul (x ∷ q) ((h, _), hs) = (h, plain-no_nul q hs)

render-terminated :
    (mask : List Bool) (rows : Table) → render mask rows ≡ terminated b'\n' (map (picked mask) rows)
unfolding render
render-terminated mask [] = refl
render-terminated mask (row ∷ rows) =
    ap (λ t. picked mask row ++ (b'\n' ∷ t)) (render-terminated mask rows)

rows-IsWord :
    (mask : List Bool) (rows : Table)
    → All (Printable mask) rows
    → All (IsWord is_newline) (map (picked mask) rows)
rows-IsWord mask [] h = tt
rows-IsWord mask (row ∷ rows) ((ne, p, _), hs) = (
  record { ne_nil = ne; plain = plain-not_newline (picked mask row) p },
  rows-IsWord mask rows hs,
)

rows-no_nul :
    (mask : List Bool) (rows : Table)
    → All (Printable mask) rows
    → All (λ x. x ≢ 0) (render mask rows)
unfolding render
rows-no_nul mask [] h = tt
rows-no_nul mask (row ∷ rows) ((ne, p, _), hs) =
    All-append (λ x. x ≢ 0) (picked mask row) (b'\n' ∷ render mask rows)
      (plain-no_nul (picked mask row) p) ((λ e. omega arith), rows-no_nul mask rows hs)

rows-short :
    (mask : List Bool) (rows : Table)
    → All (Printable mask) rows
    → All (λ (r : Bytes). length r < buffer_size) (map (picked mask) rows)
rows-short mask [] h = tt
rows-short mask (row ∷ rows) ((_, _, s), hs) = (s, rows-short mask rows hs)

pub select-Answers :
    (names : Row) (rows : Table) (query c : Bytes) (cols rest : List Bytes) (j : ℕ)
    → split2 (some query) b' ' b',' ≡ some (codes "SELECT" ∷ c ∷ (cols ++ (codes "FROM" ∷ rest)))
    → Distinct names
    → IsTable names rows
    → str_eq c (codes "FROM") ≡ false
    → str_eq c (codes "DISTINCT") ≡ false
    → str_eq c (codes "*") ≡ false
    → All (λ t. str_eq t (codes "FROM") ≡ false) cols
    → find_column c names 0 ≡ some j
    → All (Printable (mask_of (elem (c ∷ cols)) names)) (names ∷ rows)
    → Answers
        (names ∷ rows)
        query
        (names ∷ rows)
        (map (picked (mask_of (elem (c ∷ cols)) names)) (names ∷ rows))
select-Answers names rows query c cols rest j q d is hf hd hs h e p =
    let mask = mask_of (elem (c ∷ cols)) names in
    let table = names ∷ rows in
    record {
      answer = render mask table;
      parsed = parse_query-select names rows query c cols rest j q d is hf hd hs h e;
      no_nul = rows-no_nul mask table p;
      lines =
          ap (runs is_newline []) (render-terminated mask table)
          ∙ runs-terminated is_newline b'\n' (map (picked mask) table) refl
              (rows-IsWord mask table p);
      short = rows-short mask table p;
    }

-- A SELECT of columns, as a query of a connection: the thread sends the number of the table's rows, the
-- header included, and then each row's cells in the columns that a token names, in the table's order;
-- the table stays. The conditions are those of the query's answer, and that each printed row
-- is not empty, has no newline or NUL in its cells and fits in a buffer.
pub respond-select :
    (w : Worker) (names : Row) (rows : Table) (query c : Bytes) (cols rest : List Bytes) (j : ℕ)
    → w.table ≡ names ∷ rows
    → split2 (some query) b' ' b',' ≡ some (codes "SELECT" ∷ c ∷ (cols ++ (codes "FROM" ∷ rest)))
    → Distinct names
    → IsTable names rows
    → str_eq c (codes "FROM") ≡ false
    → str_eq c (codes "DISTINCT") ≡ false
    → str_eq c (codes "*") ≡ false
    → All (λ t. str_eq t (codes "FROM") ≡ false) cols
    → find_column c names 0 ≡ some j
    → All (Printable (mask_of (elem (c ∷ cols)) names)) (names ∷ rows)
    → (w' : Worker) × (respond w query
        ≡ some (w', reply (map (picked (mask_of (elem (c ∷ cols)) names)) (names ∷ rows))))
      × (w'.table ≡ names ∷ rows)
respond-select w names rows query c cols rest j t q d is hf hd hs h e p =
    let mask = mask_of (elem (c ∷ cols)) names in
    let table = names ∷ rows in
    let a = select-Answers names rows query c cols rest j q d is hf hd hs h e p in
    respond-Answers w query table (map (picked mask) table)
      (subst (λ t'. Answers t' query table (map (picked mask) table)) (sym t) a)
