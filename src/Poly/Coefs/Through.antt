-- ===== src/Poly/Coefs/Through.antt =====
-- The polynomial that setCoefs of HWs/HW2/lib.c prints goes through the nodes.
use cse344_coursework.Base.{
  ℕ, zero, suc, [], ◌+◌, ◌≤◌, ◌≡◌, refl, sym, ap, ◌∙◌, true, some, List, ◌∷◌, ◌++◌, ltb, length,
  length-append, length-take_all, take, arith,
}
use cse344_coursework.Poly.{Arithmetic, pn}
use cse344_coursework.Poly.Nodes.{Laws, AreDistinct, pn-node}
use cse344_coursework.Poly.Coefs.{set_coefs}
use cse344_coursework.Poly.Coefs.Values.{Exact, value}
use cse344_coursework.Poly.Coefs.Interpolation.{set_coefs-pn}

take-take : {D : Type 0} → (n : ℕ) (xs : List D) → take n (take n xs) ≡ take n xs
take-take zero xs = refl
take-take (suc n) [] = refl
take-take (suc n) (x ∷ xs) = ap (λ t. x ∷ t) (take-take n xs)

-- Pn of degree 6 looks at the first seven nodes only.
pn-take :
    {D : Type 0}
    → (A : Arithmetic D) (x y : List D) (at : D) → 7 ≤ length x
    → 7 ≤ length y
    → pn A 6 (take 7 x) (take 7 y) at ≡ pn A 6 x y at
unfolding pn
pn-take A x y at h k =
    let e1 : ltb 6 (length x) ≡ true = ground (arith, h) in
    let e2 : ltb 6 (length y) ≡ true = ground (arith, k) in
    let e3 : ltb 6 (length (take 7 x)) ≡ true = ground (arith, length-take_all 7 x h) in
    let e4 : ltb 6 (length (take 7 y)) ≡ true = ground (arith, length-take_all 7 y k) in
    rw (e1, e2, e3, e4, take-take 7 x, take-take 7 y) refl

-- Where arithmetic is exact, setCoefs of seven nodes or more gives seven coefficients. The value of their
-- polynomial at any point is that of Pn in the second round, and at a node, if the seven nodes differ
-- from each other, it is the value there: at `at`, which has number `length pre` of the nodes, it is
-- `v`.
pub set_coefs-nodes :
    {D : Type 0}
    → (A : Arithmetic D) (e : Exact A) (laws : Laws A) (x y pre post : List D) (at : D)
      (ypre ypost : List D) (v : D)
    → 7 ≤ length x
    → 7 ≤ length y
    → take 7 x ≡ pre ++ at ∷ post
    → take 7 y ≡ ypre ++ v ∷ ypost
    → length pre ≡ length ypre
    → AreDistinct (pre ++ at ∷ post)
    → (cs : List D) × (set_coefs A x y ≡ some cs)
      × (length cs ≡ 7)
      × ((point : D) → pn A 6 x y point ≡ some (value A e cs point))
      × (value A e cs at ≡ v)
set_coefs-nodes A e laws x y pre post at ypre ypost v h k ex ey same distinct =
    let (cs, run, len, through) = set_coefs-pn A e x y h k in
    let lx : suc (length pre + length post) ≡ 7 =
      omega
        (arith, ap (length {A = _}) ex, length-take_all 7 x h, length-append {0} pre (at ∷ post)) in
    let ly : suc (length ypre + length ypost) ≡ 7 =
      omega (
        arith,
        ap (length {A = _}) ey,
        length-take_all 7 y k,
        length-append {0} ypre (v ∷ ypost),
      ) in
    let degree : length pre + length post ≡ 6 = omega (arith, lx) in
    let node =
      pn-node A laws pre post at ypre ypost v same (omega (arith, lx, ly, same)) distinct in
    let six : pn A 6 (pre ++ at ∷ post) (ypre ++ v ∷ ypost) at ≡ some v =
      ap (λ n. pn A n (pre ++ at ∷ post) (ypre ++ v ∷ ypost) at) (sym degree) ∙ node in
    let whole : pn A 6 x y at ≡ some v =
      sym (pn-take A x y at h k) ∙ (λ i. pn A 6 (ex i) (ey i) at) ∙ six in
    let found = through at in (cs, run, len, through, cc (found, whole))
