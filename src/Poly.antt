-- ===== src/Poly.antt =====
-- The polynomials of HWs/HW2/lib.c: Li, Pn and setRowPairs. The arithmetic of `double` is a
-- parameter. `none` is an index out of bounds.
use cse344_coursework.Base.{
  ℕ, zero, suc, ◌+◌, ◌<◌, ◌≡◌, ◌≢◌, Bool, true, false, ◌&&◌, ◌||◌, not, Option, none, some, List,
  [], ◌∷◌, ◌++◌, ◌==◌, ltb, if◌then◌else◌, ◌>>=◌, Bytes, length, get_elem?, take,
}
use cse344_coursework.Lines.{fgets_lines}
use cse344_coursework.Potato.{strip_newline}
pub mod Coefs
pub mod Nodes
pub mod Rounds
pub mod Signals

-- The operations on `double`.
pub record Arithmetic (D : Type 0) : Type 0 where
  pub nought : D
  pub one : D
  pub add : D → D → D
  pub sub : D → D → D
  pub mul : D → D → D
  pub div : D → D → D
  pub neg : D → D

module _ {D : Type 0} (A : Arithmetic D) where
  -- `for (j=0; j<=n; j++)`: `nodes` are `x[j]` and those behind it, up to `x[n]`.
  unfoldable pub li_loop : (i j : ℕ) → (xi at : D) → (prod : D) → (nodes : List D) → D
  li_loop i j xi at prod [] = prod
  li_loop i j xi at prod (x ∷ nodes) =
      let next = A.div (A.mul prod (A.sub at x)) (A.sub xi x) in
      li_loop i (j + 1) xi at (if not (j == i) then next else prod) nodes

  -- The sum over i, where `xs` and `ys` are `x[i]`, `y[i]` and those behind them.
  unfoldable pub pn_loop : (nodes : List D) → (at : D) → (i : ℕ) → (sum : D) → (xs ys : List D) → D
  unfolding li_loop
  pn_loop nodes at i sum [] ys = sum
  pn_loop nodes at i sum (x ∷ xs) [] = sum
  pn_loop nodes at i sum (x ∷ xs) (y ∷ ys) =
      pn_loop nodes at (i + 1) (A.add sum (A.mul (li_loop i 0 x at A.one nodes) y)) xs ys

  unfoldable pub li : (i n : ℕ) → (x : List D) → (at : D) → Option D
  unfolding li_loop
  li i n x at = do
    xi ← get_elem? x i
    if ltb n (length x) then some (li_loop i 0 xi at A.one (take (suc n) x)) else none

  unfoldable pub pn : (n : ℕ) → (x y : List D) → (at : D) → Option D
  unfolding pn_loop
  pn n x y at =
      if ltb n (length x) && ltb n (length y)
      then some (pn_loop (take (suc n) x) at 0 A.nought (take (suc n) x) (take (suc n) y))
      else none

abbrev pub max_line : ℕ
max_line = 256

-- The line with the number, `sline` of at most eight.
unfoldable pub row_of : List Bytes → (row_id : ℕ) → Bytes
unfolding strip_newline
row_of [] row_id = []
row_of (l ∷ lines) zero = strip_newline l
row_of (l ∷ lines) (suc row_id) = row_of lines row_id

-- `setRowPairs`: of the first eight lines the one with the number, without its newline; the empty
-- text if the file has no such line, and `none` for a row number that is refused.
unfoldable pub set_row_pairs : (file : Bytes) → (row_id : ℕ) → Option Bytes
unfolding row_of
set_row_pairs file row_id =
    if ltb 7 row_id then none else some (row_of (take 8 (fgets_lines max_line file [])) row_id)
