-- ===== src/Poly/Coefs/Interpolation.antt =====
-- setCoefs of HWs/HW2/lib.c gives the coefficients of the polynomial that Pn evaluates.
use cse344_coursework.Base.{
  length-take_all, ℕ, zero, suc, ◌+◌, ◌≤◌, ◌<◌, ◌≡◌, refl, sym, ap, ◌∙◌, true, false, some, List,
  [], ◌∷◌, ◌==◌, ltb, leb, length, take, replicate, arith,
}
use cse344_coursework.Poly.{Arithmetic, li_loop, pn_loop, pn}
use cse344_coursework.Poly.Coefs.{
  factor_loop, first_factor, basis, add_scaled, coefs_loop, set_coefs, coefs_number,
}
use cse344_coursework.Poly.Coefs.Values.{
  Exact, value, factors, factor_loop-value, nought-mul, one-mul, add_left_comm, mul_left_comm,
  add-mul,
}

length-take : {D : Type 0} → (n : ℕ) (xs : List D) → length (take n xs) ≤ n
length-take zero xs = omega arith
length-take (suc n) [] = omega arith
length-take (suc n) (x ∷ xs) = omega (arith, length-take n xs)

module _ {D : Type 0} (A : Arithmetic D) (e : Exact A) where
  factors-behind : (i n : ℕ) (nodes : List D) → i < n → factors A e i n nodes ≡ length nodes
  unfolding factors
  factors-behind i n [] h = refl
  factors-behind i n (x ∷ nodes) h = ground (arith, factors-behind i (n + 1) nodes)

  factors-skip :
      (i n : ℕ) (nodes : List D)
      → n ≤ i
      → i < n + length nodes
      → suc (factors A e i n nodes) ≡ length nodes
  unfolding factors
  factors-skip i n [] h l = absurd (omega (arith, h, l))
  factors-skip i n (x ∷ nodes) h l =
      ground (arith, factors-skip i (n + 1) nodes, factors-behind i (n + 1) nodes)

  first_factor-value :
      (xi xn at : D)
      → value A e (first_factor A xi xn) at ≡ A.div (A.mul A.one (A.sub at xn)) (A.sub xi xn)
  unfolding first_factor value
  first_factor-value xi xn at = simp (
    e.div-mul,
    e.sub-add,
    e.mul-nought,
    nought-mul A e,
    e.add-nought,
    e.mul-one,
    one-mul A e,
    e.add_comm,
    e.mul_assoc,
    e.mul_comm,
    mul_left_comm A e,
    e.mul-add,
    add-mul A e,
  )

  -- `basis` with the first factor of another node.
  basis-first :
      (i n : ℕ) (xi xn : D) (nodes : List D)
      → 1 + factors A e i n nodes ≤ 6
      → (new : List D) × (factor_loop A i n xi nodes (first_factor A xi xn) ≡ some new)
        × (length new ≡ 7)
        × ((at : D)
            → value A e new at
              ≡ li_loop A i n xi at (A.div (A.mul A.one (A.sub at xn)) (A.sub xi xn)) nodes)
  unfolding first_factor
  basis-first i n xi xn nodes l =
      let (new, run, len, v) =
        factor_loop-value A e i n xi 1 nodes (first_factor A xi xn) l refl
          (refl, (refl, (refl, (refl, (refl, tt))))) in
      (
        new,
        run,
        len,
        λ at. v at ∙ ap (λ t. li_loop A i n xi at t nodes) (first_factor-value xi xn at),
      )

  basis-suc :
      (i : ℕ) (xi x0 x1 : D) (xs : List D)
      → basis A (suc i) xi (x0 ∷ x1 ∷ xs)
        ≡ factor_loop A (suc i) 1 xi (x1 ∷ take 5 xs) (first_factor A xi x0)
  unfolding basis
  basis-suc i xi x0 x1 xs =
      let positive : ltb 0 (suc i) ≡ true = ground arith in
      let not_first : (suc i == 0) ≡ false = ground arith in rw (positive, not_first)

  li_loop-suc :
      (i : ℕ) (xi at x0 : D) (nodes : List D)
      → li_loop A (suc i) 1 xi at (A.div (A.mul A.one (A.sub at x0)) (A.sub xi x0)) nodes
        ≡ li_loop A (suc i) 0 xi at A.one (x0 ∷ nodes)
  unfolding li_loop
  li_loop-suc i xi at x0 nodes = let other : (0 == suc i) ≡ false = ground arith in rw other

  basis-value :
      (i : ℕ) (xi : D) (x : List D)
      → 7 ≤ length x
      → i < 7
      → (new : List D) × (basis A i xi x ≡ some new)
        × (length new ≡ 7)
        × ((at : D) → value A e new at ≡ li_loop A i 0 xi at A.one (take coefs_number x))
  unfolding basis li_loop
  basis-value i xi [] h l = absurd (omega (arith, h))
  basis-value i xi (x0 ∷ []) h l = absurd (omega (arith, h))
  basis-value zero xi (x0 ∷ x1 ∷ xs) h l =
      basis-first 0 2 xi x1 (take 5 xs)
        (omega (arith, factors-behind 0 2 (take 5 xs), length-take 5 xs))
  basis-value (suc i) xi (x0 ∷ x1 ∷ xs) h l =
      let (new, run, len, v) = basis-first (suc i) 1 xi x0 (x1 ∷ take 5 xs) (
        omega (
          arith,
          factors-skip (suc i) 1 (x1 ∷ take 5 xs),
          length-take_all 5 xs,
          length-take 5 xs,
        )) in
      (
        new,
        basis-suc i xi x0 x1 xs ∙ run,
        len,
        λ at. v at ∙ li_loop-suc i xi at x0 (x1 ∷ take 5 xs),
      )

  add_scaled-value :
      (y at : D) (cs new : List D)
      → length cs ≡ length new
      → value A e (add_scaled A y cs new) at ≡ A.add (value A e cs at) (A.mul (value A e new at) y)
  unfolding add_scaled value
  add_scaled-value y at [] [] h = rw (nought-mul A e y) (sym (e.add-nought A.nought))
  add_scaled-value y at [] (n ∷ new) h = absurd (omega (arith, h))
  add_scaled-value y at (c ∷ cs) [] h = absurd (omega (arith, h))
  add_scaled-value y at (c ∷ cs) (n ∷ new) h =
      rw (add_scaled-value y at cs new (omega (arith, h))) (
        simp (
          e.add_assoc,
          e.add_comm,
          add_left_comm A e,
          e.mul_assoc,
          e.mul_comm,
          mul_left_comm A e,
          e.mul-add,
          add-mul A e,
        ))

  length-add_scaled : (y : D) (cs new : List D) → length (add_scaled A y cs new) ≡ length cs
  unfolding add_scaled
  length-add_scaled y [] new = refl
  length-add_scaled y (c ∷ cs) [] = refl
  length-add_scaled y (c ∷ cs) (n ∷ new) = ap suc (length-add_scaled y cs new)

  value-noughts : (n : ℕ) (at : D) → value A e (replicate n A.nought) at ≡ A.nought
  unfolding value
  value-noughts zero at = refl
  value-noughts (suc n) at = rw (value-noughts n at) (simp (e.mul-nought, e.add-nought))

  coefs_loop-step :
      (x : List D) (i : ℕ) (xi yi : D) (xs ys coefs : List D) {new : List D}
      → basis A i xi x ≡ some new
      → coefs_loop A x i (xi ∷ xs) (yi ∷ ys) coefs
        ≡ coefs_loop A x (i + 1) xs ys (add_scaled A yi coefs new)
  unfolding coefs_loop
  coefs_loop-step x i xi yi xs ys coefs run = rw run

  coefs_loop-value :
      (x : List D) (i : ℕ) (xs ys coefs : List D)
      → 7 ≤ length x
      → i + length xs ≤ 7
      → length xs ≤ length ys
      → length coefs ≡ 7
      → (cs : List D) × (coefs_loop A x i xs ys coefs ≡ some cs)
        × (length cs ≡ 7)
        × ((at : D)
            → pn_loop A (take coefs_number x) at i (value A e coefs at) xs ys ≡ value A e cs at)
  unfolding coefs_loop pn_loop
  coefs_loop-value x i [] ys coefs h l k len = (coefs, refl, len, λ at. refl)
  coefs_loop-value x i (xi ∷ xs) [] coefs h l k len = absurd (omega (arith, k))
  coefs_loop-value x i (xi ∷ xs) (yi ∷ ys) coefs h l k len =
      let (new, run, len1, v) = basis-value i xi x h (omega (arith, l)) in
      let (cs, run', len', v') =
        coefs_loop-value x (i + 1) xs ys (add_scaled A yi coefs new) h (omega (arith, l))
          (omega (arith, k)) (length-add_scaled yi coefs new ∙ len) in
      (
        cs,
        coefs_loop-step x i xi yi xs ys coefs run ∙ run',
        len',
        λ at.
            ap (λ t. pn_loop A (take coefs_number x) at (i + 1) t xs ys)
              (ap (λ t. A.add (value A e coefs at) (A.mul t yi)) (sym (v at))
                ∙ sym (add_scaled-value yi at coefs new (omega (arith, len, len1))))
            ∙ v' at,
      )

-- Where arithmetic is exact, setCoefs of seven nodes or more gives the seven coefficients of the
-- polynomial that Pn evaluates in the second round: its value at any point is that of Pn.
pub set_coefs-pn :
    {D : Type 0}
    → (A : Arithmetic D) (e : Exact A) (x y : List D) → 7 ≤ length x
    → 7 ≤ length y
    → (cs : List D) × (set_coefs A x y ≡ some cs)
      × (length cs ≡ 7)
      × ((at : D) → pn A 6 x y at ≡ some (value A e cs at))
unfolding set_coefs pn
set_coefs-pn A e x y h k =
    let lx = length-take_all 7 x h in
    let ly = length-take_all 7 y k in
    let (cs, run, len, v) =
      coefs_loop-value A e x 0 (take 7 x) (take 7 y) (replicate 7 A.nought) h (omega (arith, lx))
        (omega (arith, lx, ly)) refl in
    let e1 : leb coefs_number (length x) ≡ true = ground (arith, h) in
    let e2 : leb coefs_number (length y) ≡ true = ground (arith, k) in
    let e3 : ltb 6 (length x) ≡ true = ground (arith, h) in
    let e4 : ltb 6 (length y) ≡ true = ground (arith, k) in
    (
      cs,
      rw (e1, e2) run,
      len,
      λ at.
          rw (e3, e4)
            (ap (λ t. some (pn_loop A (take 7 x) at 0 t (take 7 x) (take 7 y)))
                (sym (value-noughts A e 7 at))
              ∙ ap some (v at)),
    )
