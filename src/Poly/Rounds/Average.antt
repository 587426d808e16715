-- ===== src/Poly/Rounds/Average.antt =====
-- The error that the parent prints behind a round of all children (childRound and
-- calcErrPrint of HWs/HW2/lib.c).
use cse344_coursework.Base.{
  get_elem?-append, get_elem?-last, get_elem?_ext, length-map, All-get_elem?, ℕ, zero, suc, ◌<◌,
  ◌≡◌, ◌≢◌, ◌↔◌, refl, sym, ap, ◌∙◌, All, Bool, Bool-cases, inl, inr, true, false, Option,
  Option-cases, none, some, List, [], ◌∷◌, ◌++◌, map, ◌==◌, if◌then◌else◌, ◌>>=◌, Bytes, length,
  get_elem?, take, set, get_elem?-set_ne, get_elem?-set_self, arith, get_elem?-lt, get_elem?-some,
}
use cse344_coursework.Tokens.Join.{terminated}
use cse344_coursework.Lines.{fgets_lines}
use cse344_coursework.Lines.Texts.{IsLine, line_of, fgets_lines-terminated}
use cse344_coursework.Potato.{strip_newline}
use cse344_coursework.Potato.Fifos.{strip_newline-line}
use cse344_coursework.Poly.{Arithmetic, max_line}
use cse344_coursework.Poly.Rounds.{
  poly_number, l_value, child_rounds, converted, line_error, error_loop, calc_err,
}
use cse344_coursework.Poly.Rounds.Files.{take-map}
use cse344_coursework.Poly.Rounds.Phase.{
  IsRow, numbers_in, numbers_in-lower, extended, extend_at, is_in, Differ, errors, extend_all,
  IsRow-l_value, extended-IsLine, extended-scan, child_rounds-extend_all,
}

-- What a list of options holds at an index, changed.
abbrev changed : (f : Bytes → Bytes) → Option Bytes → Option Bytes
changed f none = none
changed f (some r) = some (f r)

if_same : (b : Bool) → ◌≡◌ {A = Option Bytes} (if b then none else none) none
if_same true = refl
if_same false = refl

get_elem?-map :
    (f : Bytes → Bytes) (rows : List Bytes) (k : ℕ)
    → get_elem? (map f rows) k ≡ changed f (get_elem? rows k)
get_elem?-map f [] k = refl
get_elem?-map f (r ∷ rows) zero = refl
get_elem?-map f (r ∷ rows) (suc k) = get_elem?-map f rows k

module _ {D : Type 0} (A : Arithmetic D) (scan : Bytes → List D) (print : D → Bytes)
    (round : ℕ) where
  get_elem?-extend_at :
      (rows : List Bytes) (i k : ℕ) (o : Option Bytes)
      → get_elem? rows i ≡ o
      → get_elem? (extend_at A scan print round rows i o) k ≡ (
          if k == i
          then changed (extended A scan print round) (get_elem? rows k)
          else get_elem? rows k)
  get_elem?-extend_at rows i k none e = elim (Bool-cases (k == i)) [
    | inl same ↦
        let at : k ≡ i = ground (arith, same) in
        let none_there : get_elem? rows k ≡ none = ap (λ n. get_elem? rows n) at ∙ e in
        rw (same, none_there)
    | inr other ↦ rw other
  ]
  get_elem?-extend_at rows i k (some r) e = elim (Bool-cases (k == i)) [
    | inl same ↦
        let at : k ≡ i = ground (arith, same) in
        let there : get_elem? rows k ≡ some r = ap (λ n. get_elem? rows n) at ∙ e in
        rw (same, there)
          (ap (λ n. get_elem? (set rows i (extended A scan print round r)) n) at
            ∙ get_elem?-set_self rows i (extended A scan print round r) (get_elem?-lt rows i e))
    | inr other ↦
        let differ : i ≢ k = ground (arith, other) in
        rw other (get_elem?-set_ne rows (extended A scan print round r) differ)
  ]

  -- Each child changes its row once.
  get_elem?-extend_all :
      (order : List ℕ) (rows : List Bytes) (k : ℕ)
      → Differ order
      → get_elem? (extend_all A scan print round order rows) k ≡ (
          if is_in k order
          then changed (extended A scan print round) (get_elem? rows k)
          else get_elem? rows k)
  unfolding extend_all is_in
  get_elem?-extend_all [] rows k d = refl
  get_elem?-extend_all (i ∷ order) rows k (d, ds) =
      let rows' = extend_at A scan print round rows i (get_elem? rows i) in
      get_elem?-extend_all order rows' k ds
      ∙ rw (get_elem?-extend_at rows i k (get_elem? rows i) refl) (elim (Bool-cases (k == i)) [
        | inl same ↦
            let at : k ≡ i = ground (arith, same) in
            let not_again : is_in k order ≡ false = ap (λ n. is_in n order) at ∙ d in
            rw (same, not_again)
        | inr other ↦ rw other
      ])

  -- The parent finds the row's last value and the child's value.
  line_error-row :
      (rounded : D → D) (ry value : Option D) (l : Bytes) {v r : D}
      → IsRow A scan print round rounded l
      → l_value A scan print round l ≡ some v
      → get_elem? (scan l) 15 ≡ some r
      → line_error A scan print round
          (strip_newline (line_of (extended A scan print round l)))
          ry
          value
        ≡ (some r, some (rounded v))
  unfolding line_error converted
  line_error-row rounded ry value l {v} {r} row e_v e_r =
      let numbers : scan (strip_newline (line_of (extended A scan print round l)))
          ≡ scan l ++ (rounded v ∷ []) =
        ap scan (strip_newline-line (extended A scan print round l))
        ∙ extended-scan A scan print round rounded l row e_v in
      let last : get_elem? (scan l ++ (rounded v ∷ [])) 15 ≡ some r =
        get_elem?-append (scan l) (rounded v ∷ []) 15
          (omega (arith, row.numbers, numbers_in-lower round))
        ∙ e_r in
      let added : get_elem? (scan l ++ (rounded v ∷ [])) (numbers_in round) ≡ some (rounded v) =
        ap (λ n. get_elem? (scan l ++ (rounded v ∷ [])) n) (sym row.numbers)
        ∙ get_elem?-last (scan l) (rounded v) in
      rw (numbers, last, added)

  -- The parent's loop on the extended rows.
  error_loop-errors :
      (abs rounded : D → D) (sum : D) (ry value : Option D) (lines : List Bytes)
      → All (IsRow A scan print round rounded) lines
      → error_loop A scan print abs round sum ry value
          (map line_of (map (extended A scan print round) lines))
        ≡ errors A scan print round abs rounded sum lines
  unfolding error_loop errors
  error_loop-errors abs rounded sum ry value [] h = refl
  error_loop-errors abs rounded sum ry value (l ∷ lines) (row, h) =
      let (v, e_v) = IsRow-l_value A scan print round l row in
      let (r, e_r) =
        get_elem?-some (scan l) 15 (omega (arith, row.numbers, numbers_in-lower round)) in
      rw (e_r, e_v)
        (ap
            (λ (p : Option D × Option D). p.0 >>= λ a. p.1 >>= λ b.
              error_loop A scan print abs round (A.add sum (abs (A.sub a b))) p.0 p.1
                (map line_of (map (extended A scan print round) lines)))
            (line_error-row rounded ry value l row e_v e_r)
          ∙ error_loop-errors abs rounded (A.add sum (abs (A.sub r (rounded v)))) (some r)
              (some (rounded v)) lines h)

  errors-some :
      (abs rounded : D → D) (sum : D) (lines : List Bytes)
      → All (IsRow A scan print round rounded) lines
      → (total : D) × (errors A scan print round abs rounded sum lines ≡ some total)
  unfolding errors
  errors-some abs rounded sum [] h = (sum, refl)
  errors-some abs rounded sum (l ∷ lines) (row, h) =
      let (v, e_v) = IsRow-l_value A scan print round l row in
      let (r, e_r) =
        get_elem?-some (scan l) 15 (omega (arith, row.numbers, numbers_in-lower round)) in
      let (total, rest) = errors-some abs rounded (A.add sum (abs (A.sub r (rounded v)))) lines h in
      (total, rw (e_r, e_v) rest)

  IsRow-IsLine :
      (rounded : D → D) (rows : List Bytes)
      → All (IsRow A scan print round rounded) rows
      → All (IsLine max_line) rows
  IsRow-IsLine rounded [] h = tt
  IsRow-IsLine rounded (r ∷ rows) (row, h) =
      let (v, e) = IsRow-l_value A scan print round r row in
      (
        record { one_line = row.one_line; fits = omega (arith, row.fits e) },
        IsRow-IsLine rounded rows h,
      )

  extended-All :
      (rounded : D → D) (rows : List Bytes)
      → ((v : D) → All (λ x. x ≢ b'\n') (print v))
      → All (IsRow A scan print round rounded) rows
      → All (IsLine max_line) (map (extended A scan print round) rows)
  extended-All rounded [] plain h = tt
  extended-All rounded (r ∷ rows) plain (row, h) =
      (extended-IsLine A scan print round rounded plain r row, extended-All rounded rows plain h)

  extend_all-map :
      (order : List ℕ) (rows : List Bytes)
      → Differ order
      → ((k : ℕ) → k < length rows → is_in k order ≡ true)
      → extend_all A scan print round order rows ≡ map (extended A scan print round) rows
  extend_all-map order rows d all =
      get_elem?_ext (extend_all A scan print round order rows)
        (map (extended A scan print round) rows)
        (λ k.
          get_elem?-extend_all order rows k d
          ∙ elim (Option-cases (get_elem? rows k)) [
            | inl e ↦ rw e (if_same (is_in k order))
            | inr (r, e) ↦
                let found : is_in k order ≡ true = all k (get_elem?-lt rows k e) in rw found
          ]
          ∙ sym (get_elem?-map (extended A scan print round) rows k))

-- From a file of eight rows of eight pairs, and with a value behind them in a round that is not the
-- first, whichever order the children get the lock in, each child's round and the parent's reading are
-- defined, and what the parent prints is the mean of the errors of Pn in the last pair of each row.
pub phase :
    {D : Type 0}
    → (A : Arithmetic D) (scan : Bytes → List D) (print : D → Bytes) (round : ℕ)
      (abs rounded : D → D) (eight : D) (rows : List Bytes) (order : List ℕ)
    → ((v : D) → All (λ x. x ≢ b'\n') (print v))
    → length rows ≡ poly_number
    → All (IsRow A scan print round rounded) rows
    → Differ order
    → ((i : ℕ) → (is_in i order ≡ true) ↔ (i < poly_number))
    → (total : D) × (child_rounds A scan print (terminated b'\n' rows) round order
        ≡ some (terminated b'\n' (map (extended A scan print round) rows)))
      × (errors A scan print round abs rounded A.nought rows ≡ some total)
      × (calc_err A scan print abs eight
            (terminated b'\n' (map (extended A scan print round) rows))
            round
          ≡ some (A.div total eight))
unfolding calc_err
phase A scan print round abs rounded eight rows order plain len h d all =
    let rows' = map (extended A scan print round) rows in
    let written : extend_all A scan print round order rows ≡ rows' =
      extend_all-map A scan print round order rows d (λ k l. (all k).1 (omega (arith, l, len))) in
    let run =
      child_rounds-extend_all A scan print round rounded plain order rows len
        (IsRow-IsLine A scan print round rounded rows h) d
        (λ i found.
          let (r, e) = get_elem?-some rows i (omega (arith, (all i).0 found, len)) in
          (r, e, All-get_elem? (IsRow A scan print round rounded) rows i h e)) in
    let (total, e_total) = errors-some A scan print round abs rounded A.nought rows h in
    let read : take 8 (fgets_lines max_line (terminated b'\n' rows') []) ≡ map line_of rows' =
      ap (take 8) (
        fgets_lines-terminated max_line rows'
          (extended-All A scan print round rounded rows plain h))
      ∙ take-map 8 rows' (length-map (extended A scan print round) rows ∙ len) in
    (
      total,
      run ∙ ap (λ t. some (terminated b'\n' t)) written,
      e_total,
      rw read (
          ap (λ s. s >>= λ sum. some (A.div sum eight))
            (error_loop-errors A scan print round abs rounded A.nought none none rows h ∙ e_total)),
    )
