-- ===== src/Poly/Coefs.antt =====
-- setCoefs of HWs/HW2/lib.c: the coefficients of the polynomial through the first seven nodes.
-- `none` is an index out of bounds.
use cse344_coursework.Base.{
  ℕ, zero, suc, ◌+◌, ◌≡◌, Bool, true, false, not, ◌&&◌, Option, none, some, List, [], ◌∷◌, ◌++◌,
  ◌==◌, ltb, leb, if◌then◌else◌, ◌>>=◌, length, get_elem?, take, drop, set, replicate,
}
pub mod Interpolation
pub mod Through
pub mod Total
pub mod Values
use cse344_coursework.Poly.{Arithmetic}

-- `CHILD_PAIR_NUMBER-1`
abbrev pub coefs_number : ℕ
coefs_number = 7

module _ {D : Type 0} (A : Arithmetic D) where
  -- `for(int nc=6; nc>=1; nc--)`, from `nc` down; `f` is `-x[n]/(x[i]-x[n])` and `d` is `x[i]-x[n]`.
  unfoldable pub shift_loop : (f d : D) → (nc : ℕ) → (new_coef : List D) → Option (List D)
  shift_loop f d zero new_coef = some new_coef
  shift_loop f d (suc nc) new_coef = do
    here ← get_elem? new_coef (suc nc)
    below ← get_elem? new_coef nc
    shift_loop f d nc (set new_coef (suc nc) (A.add (A.mul here f) (A.div below d)))

  -- One factor: the loop, and `newCoef[0]`.
  unfoldable pub factor : (xi xn : D) → (new_coef : List D) → Option (List D)
  unfolding shift_loop
  factor xi xn new_coef = do
    let d = A.sub xi xn
    let f = A.div (A.neg xn) d
    shifted ← shift_loop f d 6 new_coef
    first ← get_elem? shifted 0
    some (set shifted 0 (A.mul first f))

  -- `for(int n=startIndex; n<(CHILD_PAIR_NUMBER-1); n++)`: `nodes` are `x[n]` and those behind it.
  unfoldable pub factor_loop : (i n : ℕ) → (xi : D) → (nodes new_coef : List D) → Option (List D)
  unfolding factor
  factor_loop i n xi [] new_coef = some new_coef
  factor_loop i n xi (xn ∷ nodes) new_coef = do
    next ← if i == n then some new_coef else factor xi xn new_coef
    factor_loop i (n + 1) xi nodes next

  -- `newCoef` with its first factor.
  unfoldable pub first_factor : (xi xn : D) → List D
  first_factor xi xn =
      let d = A.sub xi xn in
      set (set (replicate coefs_number A.nought) 0 (A.div (A.neg xn) d)) 1 (A.div A.one d)

  unfoldable pub basis : (i : ℕ) → (xi : D) → (x : List D) → Option (List D)
  unfolding first_factor factor_loop
  basis i xi x = do
    other ← get_elem? x (if ltb 0 i then 0 else 1)
    let start = if i == 0 then 2 else 1
    factor_loop i start xi (drop start (take coefs_number x)) (first_factor xi other)

  -- `coefs[nc]+=y[i]*newCoef[nc]`
  unfoldable pub add_scaled : (yi : D) → (coefs new_coef : List D) → List D
  add_scaled yi [] new_coef = []
  add_scaled yi (c ∷ coefs) [] = c ∷ coefs
  add_scaled yi (c ∷ coefs) (n ∷ new_coef) = A.add c (A.mul yi n) ∷ add_scaled yi coefs new_coef

  -- The outer loop, where `xs` and `ys` are `x[i]`, `y[i]` and those behind them.
  unfoldable pub coefs_loop : (x : List D) → (i : ℕ) → (xs ys coefs : List D) → Option (List D)
  unfolding basis add_scaled
  coefs_loop x i [] ys coefs = some coefs
  coefs_loop x i (xi ∷ xs) [] coefs = none
  coefs_loop x i (xi ∷ xs) (yi ∷ ys) coefs = do
    new_coef ← basis i xi x
    coefs_loop x (i + 1) xs ys (add_scaled yi coefs new_coef)

  unfoldable pub set_coefs : (x y : List D) → Option (List D)
  unfolding coefs_loop
  set_coefs x y =
      if leb coefs_number (length x) && leb coefs_number (length y)
      then coefs_loop x 0 (take coefs_number x) (take coefs_number y)
          (replicate coefs_number A.nought)
      else none
