-- ===== src/Poly/Rounds/Phase.antt =====
-- A round of all children, and the error that the parent prints behind it (childRound and
-- calcErrPrint of HWs/HW2/lib.c).
use cse344_coursework.Base.{
  length-take_all, All-set, ℕ, zero, suc, ◌+◌, ◌<◌, ◌≤◌, ◌≡◌, ◌≢◌, refl, sym, ap, ◌∙◌, All, Bool,
  Bool-cases, inl, inr, if◌then◌else◌, true, false, ◌||◌, Option, none, some, List, [], ◌∷◌, ◌++◌,
  ◌==◌, ltb, ◌>>=◌, Bytes, length, length-append, get_elem?, take, set, length-set,
  get_elem?-set_ne, arith, All-append, get_elem?-some,
}
use mathlib.Core.Path.{subst}
use cse344_coursework.Tokens.Join.{terminated}
use cse344_coursework.Lines.Texts.{IsLine}
use cse344_coursework.Poly.{Arithmetic, max_line, pn, pn_loop}
use cse344_coursework.Poly.Coefs.Total.{set_coefs-some}
use cse344_coursework.Poly.Rounds.{
  poly_number, split_pairs, l_value, printed_coefs, child_round, child_rounds,
}
use cse344_coursework.Poly.Rounds.Files.{child_round-set}

length-split_pairs :
    {D : Type 0}
    → (k : ℕ) (xs : List D) → length xs ≡ k + k
    → (length (split_pairs xs).0 ≡ k) × (length (split_pairs xs).1 ≡ k)
unfolding split_pairs
length-split_pairs k [] e = (omega (arith, e), omega (arith, e))
length-split_pairs k (x ∷ []) e = absurd (omega (arith, e))
length-split_pairs zero (x ∷ y ∷ xs) e = absurd (omega (arith, e))
length-split_pairs (suc k) (x ∷ y ∷ xs) e =
    let (l, r) = length-split_pairs k xs (omega (arith, e)) in (omega (arith, l), omega (arith, r))

pn-some :
    {D : Type 0}
    → (A : Arithmetic D) (n : ℕ) (x y : List D) (at : D) → n < length x
    → n < length y
    → (v : D) × (pn A n x y at ≡ some v)
unfolding pn
pn-some A n x y at h k =
    let e1 : ltb n (length x) ≡ true = ground (arith, h) in
    let e2 : ltb n (length y) ≡ true = ground (arith, k) in
    (pn_loop A (take (suc n) x) at 0 A.nought (take (suc n) x) (take (suc n) y), rw (e1, e2))

-- How many numbers a row has before its child's round.
abbrev pub numbers_in : (round : ℕ) → ℕ
numbers_in round = if round == 1 then 16 else 17

pub numbers_in-lower : (round : ℕ) → 16 ≤ numbers_in round
numbers_in-lower round = ground arith

-- The degree in a round is at most six.
degree-upper : (round : ℕ) → (if round == 1 then 5 else 6) < 8
degree-upper round = ground arith

unfoldable pub is_in : ℕ → List ℕ → Bool
is_in i [] = false
is_in i (j ∷ order) = (i == j) || is_in i order

abbrev pub Differ : List ℕ → Type 0
Differ [] = Unit
Differ (j ∷ order) = (is_in j order ≡ false) × Differ order

pub is_in-head : (i : ℕ) (order : List ℕ) → is_in i (i ∷ order) ≡ true
unfolding is_in
is_in-head i order = ground arith

pub is_in-tail : (j i : ℕ) (order : List ℕ) → is_in j order ≡ true → is_in j (i ∷ order) ≡ true
unfolding is_in
is_in-tail j i order h = ground (arith, h)

pub is_in-ne : (i j : ℕ) (order : List ℕ) → is_in i order ≡ false → is_in j order ≡ true → i ≢ j
is_in-ne i j order h k e = let no : false ≡ true = sym h ∙ ap (λ n. is_in n order) e ∙ k in cc

module _ {D : Type 0} (A : Arithmetic D) (scan : Bytes → List D) (print : D → Bytes)
    (round : ℕ) where
  -- A row of eight pairs, and in the second round a value behind them, with room for
  -- the child's value. `rounded` is what a number is after `print`: sscanf finds it behind the comma,
  -- and the numbers before it as they were.
  pub record IsRow (rounded : D → D) (line : Bytes) : Type 0 where
    pub one_line : All (λ x. x ≢ b'\n') line
    pub numbers : length (scan line) ≡ numbers_in round
    pub fits :
        {v : D}
        → l_value A scan print round line ≡ some v
        → length line + length (print v) + 2 < max_line
    pub appended :
        {v : D}
        → l_value A scan print round line ≡ some v
        → scan (line ++ (b',' ∷ print v)) ≡ scan line ++ (rounded v ∷ [])

  -- The row behind its child's round.
  abbrev pub with_value : Bytes → Option D → Bytes
  with_value line none = line
  with_value line (some v) = line ++ (b',' ∷ print v)

  unfoldable pub extended : Bytes → Bytes
  extended line = with_value line (l_value A scan print round line)

  -- The sum of the errors, added up as the parent does: of the last value of each row and the rounded
  -- value of Pn.
  unfoldable pub errors : (abs rounded : D → D) (sum : D) → List Bytes → Option D
  errors abs rounded sum [] = some sum
  errors abs rounded sum (l ∷ lines) = do
    r ← get_elem? (scan l) 15
    v ← l_value A scan print round l
    errors abs rounded (A.add sum (abs (A.sub r (rounded v)))) lines

  pub l_value-some :
      (line : Bytes)
      → 16 ≤ length (scan line)
      → (v : D) × (l_value A scan print round line ≡ some v)
  unfolding l_value
  l_value-some line e =
      let sixteen = length-take_all 16 (scan line) e in
      let (lx, ly) = length-split_pairs 8 (take 16 (scan line)) sixteen in
      let x = (split_pairs (take 16 (scan line))).0 in
      let y = (split_pairs (take 16 (scan line))).1 in
      let (at, e_at) = get_elem?-some x 7 (omega (arith, lx)) in
      let n = if round == 1 then 5 else 6 in
      let small = degree-upper round in
      let (v, e_v) = pn-some A n x y at (omega (arith, lx, small)) (omega (arith, ly, small)) in
      (v, rw e_at e_v)

  pub IsRow-l_value :
      {rounded : D → D}
      → (line : Bytes) → IsRow rounded line
      → (v : D) × (l_value A scan print round line ≡ some v)
  IsRow-l_value line row = l_value-some line (omega (arith, row.numbers, numbers_in-lower round))

  printed_coefs-some :
      (line : Bytes)
      → 16 ≤ length (scan line)
      → (cs : List D) × (printed_coefs A scan print round line ≡ some cs)
  unfolding printed_coefs
  printed_coefs-some line e =
      let sixteen = length-take_all 16 (scan line) e in
      let (lx, ly) = length-split_pairs 8 (take 16 (scan line)) sixteen in
      let x = (split_pairs (take 16 (scan line))).0 in
      let y = (split_pairs (take 16 (scan line))).1 in
      elim (Bool-cases (round == 2)) [
        | inl second ↦
            let (cs, run) = set_coefs-some A x y (omega (arith, lx)) (omega (arith, ly)) in
            (cs, rw second run)
        | inr other ↦ ([], rw other)
      ]

  abbrev pub extend_at : List Bytes → ℕ → Option Bytes → List Bytes
  extend_at rows i none = rows
  extend_at rows i (some r) = set rows i (extended r)

  -- The rows behind the rounds of some of the children.
  unfoldable pub extend_all : (order : List ℕ) → List Bytes → List Bytes
  extend_all [] rows = rows
  extend_all (i ∷ order) rows = extend_all order (extend_at rows i (get_elem? rows i))

  pub extended-some :
      (line : Bytes) {v : D}
      → l_value A scan print round line ≡ some v
      → extended line ≡ line ++ (b',' ∷ print v)
  unfolding extended
  extended-some line e = ap (with_value line) e

  pub extended-scan :
      (rounded : D → D) (line : Bytes) {v : D}
      → IsRow rounded line
      → l_value A scan print round line ≡ some v
      → scan (extended line) ≡ scan line ++ (rounded v ∷ [])
  extended-scan rounded line {v} h e = ap scan (extended-some line e) ∙ h.appended e

  module _ (rounded : D → D) (plain : (v : D) → All (λ x. x ≢ b'\n') (print v)) where
    pub extended-IsLine : (line : Bytes) → IsRow rounded line → IsLine max_line (extended line)
    extended-IsLine line h =
        let (v, e) = IsRow-l_value line h in
        subst (IsLine max_line) (sym (extended-some line e)) (record {
          one_line =
              All-append (λ x. x ≢ b'\n') line (b',' ∷ print v) h.one_line
                ((λ e. omega (arith, e)), plain v);
          fits = omega (arith, h.fits e, length-append {0} line (b',' ∷ print v));
        })

    child_round-extended :
        (rows : List Bytes) (i : ℕ) (r : Bytes)
        → length rows ≡ poly_number
        → All (IsLine max_line) rows
        → get_elem? rows i ≡ some r
        → IsRow rounded r
        → (cs : List D) × (child_round A scan print (terminated b'\n' rows) i round
            ≡ some (terminated b'\n' (set rows i (extended r)), cs))
    child_round-extended rows i r len h e row =
        let (v, ev) = IsRow-l_value r row in
        let (cs, ec) = printed_coefs-some r (omega (arith, row.numbers, numbers_in-lower round)) in
        (
          cs,
          child_round-set A scan print rows i round r v cs len h e ev ec
              ∙ ap (λ t. some (terminated b'\n' (set rows i t), cs)) (sym (extended-some r ev)),
        )

    pub child_rounds-extend_all :
        (order : List ℕ) (rows : List Bytes)
        → length rows ≡ poly_number
        → All (IsLine max_line) rows
        → Differ order
        → ((i : ℕ)
            → is_in i order ≡ true
            → (r : Bytes) × (get_elem? rows i ≡ some r) × IsRow rounded r)
        → child_rounds A scan print (terminated b'\n' rows) round order
          ≡ some (terminated b'\n' (extend_all order rows))
    unfolding child_rounds extend_all
    child_rounds-extend_all [] rows len h d there = refl
    child_rounds-extend_all (i ∷ order) rows len h (d, ds) there =
        let (r, e, row) = there i (is_in-head i order) in
        let rest =
          child_rounds-extend_all order (set rows i (extended r))
            (length-set rows i (extended r) ∙ len)
            (All-set (IsLine max_line) rows i (extended r) h (extended-IsLine r row)) ds
            (λ j found.
              let differ : i ≢ j = is_in-ne i j order d found in
              let (q, e', row') = there j (is_in-tail j i order found) in
              (q, get_elem?-set_ne rows (extended r) differ ∙ e', row')) in
        let (cs, first) = child_round-extended rows i r len h e row in
        rw first
          (rest ∙ ap (λ o. some (terminated b'\n' (extend_all order (extend_at rows i o)))) (sym e))
