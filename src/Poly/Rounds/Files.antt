-- ===== src/Poly/Rounds/Files.antt =====
-- One round of a child on a file of eight rows (childRound of HWs/HW2/lib.c).
use cse344_coursework.Base.{
  ℕ, zero, suc, ◌+◌, ◌≤◌, ◌<◌, ◌≡◌, refl, sym, ap, ◌∙◌, All, true, false, some, List, [], ◌∷◌, ◌++◌,
  map, ◌==◌, ltb, Bytes, length, length-append, get_elem?, take, drop, set, arith, append-nil,
  get_elem?-lt,
}
use mathlib.Core.Path.{subst}
use cse344_coursework.Tokens.Join.{terminated}
use cse344_coursework.Lines.Texts.{IsLine, line_of, fgets_lines-terminated}
use cse344_coursework.Potato.Fifos.{strip_newline-line}
use cse344_coursework.Poly.{Arithmetic, max_line, row_of, set_row_pairs}
use cse344_coursework.Poly.Rounds.{
  poly_number, read_rows, rows_text, overwrite, l_value, printed_coefs, child_round,
}

row_of-lines :
    (rows : List Bytes) (t : ℕ) {r : Bytes}
    → get_elem? rows t ≡ some r
    → row_of (map line_of rows) t ≡ r
unfolding row_of
row_of-lines [] t e = cc
row_of-lines (r ∷ rows) zero e = let same : r ≡ _ = cc in strip_newline-line r ∙ same
row_of-lines (r ∷ rows) (suc t) e = row_of-lines rows t e

pub take-map :
    (n : ℕ) (rows : List Bytes) → length rows ≡ n → take n (map line_of rows) ≡ map line_of rows
take-map zero [] e = refl
take-map zero (r ∷ rows) e = absurd (omega (arith, e))
take-map (suc n) [] e = refl
take-map (suc n) (r ∷ rows) e = ap (λ t. line_of r ∷ t) (take-map n rows (omega (arith, e)))

pub set_row_pairs-row :
    (rows : List Bytes) (t : ℕ) (r : Bytes)
    → length rows ≡ poly_number
    → All (IsLine max_line) rows
    → get_elem? rows t ≡ some r
    → set_row_pairs (terminated b'\n' rows) t ≡ some r
unfolding set_row_pairs
set_row_pairs-row rows t r len h e =
    let small : ltb 7 t ≡ false = ground (arith, get_elem?-lt rows t e, len) in
    rw (small, fgets_lines-terminated max_line rows h, take-map 8 rows len)
      (ap some (row_of-lines rows t e))

read_rows-rest :
    (file : Bytes) (rest : List Bytes) (t : ℕ)
    → ((k : ℕ) (r : Bytes) → get_elem? rest k ≡ some r → set_row_pairs file (t + k) ≡ some r)
    → read_rows file (length rest) t ≡ some rest
unfolding read_rows
read_rows-rest file [] t h = refl
read_rows-rest file (r ∷ rest) t h =
    let head : set_row_pairs file t ≡ some r =
      ap (λ k. set_row_pairs file k) (omega arith) ∙ h 0 r refl in
    let tail =
      read_rows-rest file rest (t + 1)
        (λ k q e. ap (λ m. set_row_pairs file m) (omega arith) ∙ h (suc k) q e) in
    rw (head, tail)

pub read_rows-terminated :
    (rows : List Bytes)
    → length rows ≡ poly_number
    → All (IsLine max_line) rows
    → read_rows (terminated b'\n' rows) poly_number 0 ≡ some rows
read_rows-terminated rows len h =
    ap (λ n. read_rows (terminated b'\n' rows) n 0) (sym len)
    ∙ read_rows-rest (terminated b'\n' rows) rows 0 (λ k r e.
      ap (λ m. set_row_pairs (terminated b'\n' rows) m) (omega arith)
      ∙ set_row_pairs-row rows k r len h e)

-- No row behind the child's changes.
rows_text-behind :
    (c t : ℕ) (value : Bytes) (rows : List Bytes)
    → c < t
    → rows_text c t value rows ≡ terminated b'\n' rows
unfolding rows_text
rows_text-behind c t value [] h = refl
rows_text-behind c t value (r ∷ rows) h =
    let other : (c == t) ≡ false = ground (arith, h) in
    rw other (ap (λ s. r ++ (b'\n' ∷ s)) (rows_text-behind c (t + 1) value rows (omega (arith, h))))

pub rows_text-set :
    (c t k : ℕ) (value : Bytes) (rows : List Bytes) (r : Bytes)
    → c ≡ t + k
    → get_elem? rows k ≡ some r
    → rows_text c t value rows ≡ terminated b'\n' (set rows k (r ++ (b',' ∷ value)))
unfolding rows_text
rows_text-set c t k value [] r e g = cc
rows_text-set c t zero value (q ∷ rows) r e g =
    let same : (c == t) ≡ true = ground (arith, e) in
    let row : q ≡ r = cc in
    rw (same, row)
      (ap (λ s. (r ++ (b',' ∷ value)) ++ (b'\n' ∷ s))
        (rows_text-behind c (t + 1) value rows (omega (arith, e))))
rows_text-set c t (suc k) value (q ∷ rows) r e g =
    let other : (c == t) ≡ false = ground (arith, e) in
    rw other
      (ap (λ s. q ++ (b'\n' ∷ s)) (rows_text-set c (t + 1) k value rows r (omega (arith, e)) g))

drop-all : (n : ℕ) (s : Bytes) → length s ≤ n → drop n s ≡ []
drop-all zero [] h = refl
drop-all zero (x ∷ s) h = absurd (omega (arith, h))
drop-all (suc n) [] h = refl
drop-all (suc n) (x ∷ s) h = drop-all n s (omega (arith, h))

-- A longer row makes a longer text.
length-terminated-set :
    (rows : List Bytes) (k : ℕ) (r s : Bytes)
    → get_elem? rows k ≡ some r
    → length r ≤ length s
    → length (terminated b'\n' rows) ≤ length (terminated b'\n' (set rows k s))
length-terminated-set [] k r s e h = cc
length-terminated-set (q ∷ rows) zero r s e h =
    let same : length q ≡ length r = ap (length {A = ℕ}) (let row : q ≡ r = cc in row) in
    omega (
      arith,
      length-append {0} q (b'\n' ∷ terminated b'\n' rows),
      length-append {0} s (b'\n' ∷ terminated b'\n' rows),
      same,
      h,
    )
length-terminated-set (q ∷ rows) (suc k) r s e h = omega (
  arith,
  length-append {0} q (b'\n' ∷ terminated b'\n' rows),
  length-append {0} q (b'\n' ∷ terminated b'\n' (set rows k s)),
  length-terminated-set rows k r s e h,
)

module _ {D : Type 0} (A : Arithmetic D) (scan : Bytes → List D) (print : D → Bytes) where
  -- A child's round puts its value behind its row and leaves the others as they are.
  pub child_round-set :
      (rows : List Bytes) (c round : ℕ) (r : Bytes) (v : D) (cs : List D)
      → length rows ≡ poly_number
      → All (IsLine max_line) rows
      → get_elem? rows c ≡ some r
      → l_value A scan print round r ≡ some v
      → printed_coefs A scan print round r ≡ some cs
      → child_round A scan print (terminated b'\n' rows) c round
        ≡ some (terminated b'\n' (set rows c (r ++ (b',' ∷ print v))), cs)
  unfolding child_round overwrite
  child_round-set rows c round r v cs len h e ev ec =
      let text = rows_text c 0 (print v) rows in
      let same : text ≡ terminated b'\n' (set rows c (r ++ (b',' ∷ print v))) =
        rows_text-set c 0 c (print v) rows r (omega arith) e in
      let longer : length (terminated b'\n' rows) ≤ length text =
        subst (λ u. length (terminated b'\n' rows) ≤ length u) (sym same)
          (length-terminated-set rows c r (r ++ (b',' ∷ print v)) e
            (omega (arith, length-append {0} r (b',' ∷ print v)))) in
      let text_only : overwrite (terminated b'\n' rows) text ≡ text =
        ap (λ u. text ++ u) (drop-all (length text) (terminated b'\n' rows) longer)
        ∙ append-nil text in
      rw (read_rows-terminated rows len h, e, ev, ec) (ap (λ u. some (u, cs)) (text_only ∙ same))
