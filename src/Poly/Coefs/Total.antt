-- ===== src/Poly/Coefs/Total.antt =====
-- setCoefs of HWs/HW2/lib.c on rows of seven nodes or more.
use cse344_coursework.Base.{
  length-take_all, ℕ, zero, suc, ◌+◌, ◌≤◌, ◌<◌, ◌≡◌, refl, ◌∙◌, Bool-cases, inl, inr, true, some,
  List, [], ◌∷◌, ◌==◌, ltb, leb, if◌then◌else◌, length, take, drop, set, replicate, length-set,
  arith, get_elem?-some,
}
use cse344_coursework.Poly.{Arithmetic}
use cse344_coursework.Poly.Coefs.{
  shift_loop, factor, factor_loop, first_factor, basis, add_scaled, coefs_loop, set_coefs,
  coefs_number,
}

module _ {D : Type 0} (A : Arithmetic D) where
  shift_loop-some :
      (f d : D) (nc : ℕ) (new : List D)
      → nc < length new
      → (new' : List D) × (shift_loop A f d nc new ≡ some new') × (length new' ≡ length new)
  unfolding shift_loop
  shift_loop-some f d zero new h = (new, refl, refl)
  shift_loop-some f d (suc nc) new h =
      let (a, e) = get_elem?-some new (suc nc) h in
      let (b, e') = get_elem?-some new nc (omega (arith, h)) in
      let v = A.add (A.mul a f) (A.div b d) in
      let same = length-set new (suc nc) v in
      let (new', run, len) = shift_loop-some f d nc (set new (suc nc) v) (omega (arith, h, same)) in
      (new', rw (e, e') run, len ∙ same)

  factor-some :
      (xi xn : D) (new : List D)
      → length new ≡ 7
      → (new' : List D) × (factor A xi xn new ≡ some new') × (length new' ≡ 7)
  unfolding factor
  factor-some xi xn new len =
      let d = A.sub xi xn in
      let f = A.div (A.neg xn) d in
      let (shifted, run, same) = shift_loop-some f d 6 new (omega (arith, len)) in
      let (a, e) = get_elem?-some shifted 0 (omega (arith, len, same)) in
      (set shifted 0 (A.mul a f), rw (run, e), length-set shifted 0 (A.mul a f) ∙ same ∙ len)

  factor_loop-some :
      (i n : ℕ) (xi : D) (nodes new : List D)
      → length new ≡ 7
      → (new' : List D) × (factor_loop A i n xi nodes new ≡ some new') × (length new' ≡ 7)
  unfolding factor_loop
  factor_loop-some i n xi [] new len = (new, refl, len)
  factor_loop-some i n xi (xn ∷ nodes) new len = elim (Bool-cases (i == n)) [
    | inl same ↦
        let (new', run, len') = factor_loop-some i (n + 1) xi nodes new len in
        (new', rw same run, len')
    | inr other ↦
        let (next, first, len1) = factor-some xi xn new len in
        let (new', run, len') = factor_loop-some i (n + 1) xi nodes next len1 in
        (new', rw (other, first) run, len')
  ]

  basis-some :
      (i : ℕ) (xi : D) (x : List D) → 7 ≤ length x → (new : List D) × (basis A i xi x ≡ some new)
  unfolding basis first_factor
  basis-some i xi x h =
      let k = if ltb 0 i then 0 else 1 in
      let small : k < length x = ground (arith, h) in
      let (other, e) = get_elem?-some x k small in
      let start = if i == 0 then 2 else 1 in
      let (new, run, len) =
        factor_loop-some i start xi (drop start (take coefs_number x)) (first_factor A xi other)
          refl in
      (new, rw e run)

  coefs_loop-some :
      (x : List D) (i : ℕ) (xs ys coefs : List D)
      → 7 ≤ length x
      → length xs ≤ length ys
      → (cs : List D) × (coefs_loop A x i xs ys coefs ≡ some cs)
  unfolding coefs_loop
  coefs_loop-some x i [] ys coefs h l = (coefs, refl)
  coefs_loop-some x i (xi ∷ xs) [] coefs h l = absurd (omega (arith, l))
  coefs_loop-some x i (xi ∷ xs) (yi ∷ ys) coefs h l =
      let (new, run) = basis-some i xi x h in
      let (cs, rest) =
        coefs_loop-some x (i + 1) xs ys (add_scaled A yi coefs new) h (omega (arith, l)) in
      (cs, rw run rest)

  -- On seven nodes or more setCoefs stays within its arrays.
  pub set_coefs-some :
      (x y : List D) → 7 ≤ length x → 7 ≤ length y → (cs : List D) × (set_coefs A x y ≡ some cs)
  unfolding set_coefs
  set_coefs-some x y h k =
      let lx = length-take_all 7 x h in
      let ly = length-take_all 7 y k in
      let (cs, run) =
        coefs_loop-some x 0 (take 7 x) (take 7 y) (replicate 7 A.nought) h
          (omega (arith, lx, ly)) in
      let e1 : leb coefs_number (length x) ≡ true = ground (arith, h) in
      let e2 : leb coefs_number (length y) ≡ true = ground (arith, k) in (cs, rw (e1, e2) run)
