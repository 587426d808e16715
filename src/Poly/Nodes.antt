-- ===== src/Poly/Nodes.antt =====
-- The polynomial of HWs/HW2/lib.c, Li and Pn, at its nodes.
use cse344_coursework.Base.{
  ℕ, zero, suc, ◌+◌, ◌≤◌, ◌<◌, ◌≡◌, refl, ◌≢◌, ap, ◌∙◌, sym, All, true, Bool-cases, inl, inr, not,
  some, List, [], ◌∷◌, ◌++◌, ◌==◌, ltb, if◌then◌else◌, length, length-append, append_assoc,
  append-nil, take, arith,
}
use mathlib.Core.Path.{subst}
use cse344_coursework.Poly.{Arithmetic, li_loop, pn_loop, pn}

-- Arithmetic that is exact on zero and one: that of the rational numbers, and, up to the sign of zero,
-- that of finite `double`s of which no operation overflows.
pub record Laws {D : Type 0} (A : Arithmetic D) : Type 0 where
  pub sub_self : (a : D) → A.sub a a ≡ A.nought
  pub sub_ne : (a b : D) → a ≢ b → A.sub a b ≢ A.nought
  pub mul_nought : (a : D) → A.mul a A.nought ≡ A.nought
  pub nought_mul : (a : D) → A.mul A.nought a ≡ A.nought
  pub one_mul : (a : D) → A.mul A.one a ≡ a
  pub nought_div : (a : D) → a ≢ A.nought → A.div A.nought a ≡ A.nought
  pub div_self : (a : D) → a ≢ A.nought → A.div a a ≡ A.one
  pub add_nought : (a : D) → A.add a A.nought ≡ a
  pub nought_add : (a : D) → A.add A.nought a ≡ a

abbrev pub AreDistinct : {D : Type 0} → List D → Type 0
AreDistinct [] = Unit
AreDistinct (x ∷ xs) = All (λ y. x ≢ y) xs × AreDistinct xs

-- The nodes from the one with number `j` on, but for number `i`, differ from `xi`.
abbrev Others : {D : Type 0} → (i j : ℕ) → D → List D → Type 0
Others i j xi [] = Unit
Others i j xi (x ∷ nodes) = (j ≢ i → xi ≢ x) × Others i (j + 1) xi nodes

Others-behind :
    {D : Type 0}
    → (i j : ℕ) (xi : D) (nodes : List D) → i < j
    → All (λ y. xi ≢ y) nodes
    → Others i j xi nodes
Others-behind i j xi [] h a = tt
Others-behind i j xi (x ∷ nodes) h (ne, a) =
    (λ _. ne, Others-behind i (j + 1) xi nodes (omega (arith, h)) a)

All-middle :
    {D : Type 0} → (P : D → Type 0) (pre post : List D) (x : D) → All P (pre ++ x ∷ post) → P x
All-middle P [] post x (p, _) = p
All-middle P (y ∷ pre) post x (_, a) = All-middle P pre post x a

AreDistinct-Others :
    {D : Type 0}
    → (i j : ℕ) (pre post : List D) (x : D) → j + length pre ≡ i
    → AreDistinct (pre ++ x ∷ post)
    → Others i j x (pre ++ x ∷ post)
AreDistinct-Others i j [] post x e (apart, _) =
    let same : j ≡ i = omega (arith, e) in
    (λ differ. absurd (differ same), Others-behind i (j + 1) x post (omega (arith, e)) apart)
AreDistinct-Others i j (y ∷ pre) post x e (apart, distinct) = (
  λ _ eq. All-middle (λ z. y ≢ z) pre post x apart (sym eq),
  AreDistinct-Others i (j + 1) pre post x (omega (arith, e)) distinct,
)

if-keeps :
    {D : Type 0}
    → (i j : ℕ) (new old goal : D) → (j ≢ i → new ≡ goal)
    → (j ≡ i → old ≡ goal)
    → (if not (j == i) then new else old) ≡ goal
if-keeps i j new old goal other own = elim (Bool-cases (j == i)) [
  | inl e ↦ let same : j ≡ i = ground (arith, e) in rw e (own same)
  | inr e ↦ let differ : j ≢ i = ground (arith, e) in rw e (other differ)
]

take-whole : {D : Type 0} → (n : ℕ) (xs : List D) → length xs ≡ n → take n xs ≡ xs
take-whole zero [] e = refl
take-whole zero (x ∷ xs) e = let no : ⊥ = omega (arith, e) in absurd no
take-whole (suc n) [] e = refl
take-whole (suc n) (x ∷ xs) e = ap (λ t. x ∷ t) (take-whole n xs (omega (arith, e)))

module _ {D : Type 0} (A : Arithmetic D) (laws : Laws A) where
  li_loop-nought :
      (i j : ℕ) (xi at : D) (nodes : List D)
      → Others i j xi nodes
      → li_loop A i j xi at A.nought nodes ≡ A.nought
  unfolding li_loop
  li_loop-nought i j xi at [] h = refl
  li_loop-nought i j xi at (x ∷ nodes) (ne, h) =
      ap (λ u. li_loop A i (j + 1) xi at u nodes)
        (if-keeps i j _ A.nought A.nought
          (λ d.
            ap (λ u. A.div u (A.sub xi x)) (laws.nought_mul (A.sub at x))
            ∙ laws.nought_div (A.sub xi x) (laws.sub_ne xi x (ne d)))
          (λ _. refl))
      ∙ li_loop-nought i (j + 1) xi at nodes h

  li_loop-one :
      (i j : ℕ) (xi : D) (nodes : List D)
      → Others i j xi nodes
      → li_loop A i j xi xi A.one nodes ≡ A.one
  unfolding li_loop
  li_loop-one i j xi [] h = refl
  li_loop-one i j xi (x ∷ nodes) (ne, h) =
      ap (λ u. li_loop A i (j + 1) xi xi u nodes)
        (if-keeps i j _ A.one A.one
          (λ d.
            ap (λ u. A.div u (A.sub xi x)) (laws.one_mul (A.sub xi x))
            ∙ laws.div_self (A.sub xi x) (laws.sub_ne xi x (ne d)))
          (λ _. refl))
      ∙ li_loop-one i (j + 1) xi nodes h

  -- A product with another node's factor is zero.
  li_loop-other :
      (i j : ℕ) (xi at prod : D) (pre post : List D)
      → j + length pre ≢ i
      → Others i j xi (pre ++ at ∷ post)
      → li_loop A i j xi at prod (pre ++ at ∷ post) ≡ A.nought
  unfolding li_loop
  li_loop-other i j xi at prod [] post d (ne, h) =
      ap (λ u. li_loop A i (j + 1) xi at u post)
        (if-keeps i j _ prod A.nought
          (λ differ.
            ap (λ u. A.div (A.mul prod u) (A.sub xi at)) (laws.sub_self at)
            ∙ ap (λ u. A.div u (A.sub xi at)) (laws.mul_nought prod)
            ∙ laws.nought_div (A.sub xi at) (laws.sub_ne xi at (ne differ)))
          (λ same. absurd (d (omega (arith, same)))))
      ∙ li_loop-nought i (j + 1) xi at post h
  li_loop-other i j xi at prod (x ∷ pre) post d (ne, h) =
      li_loop-other i (j + 1) xi at _ pre post (λ e. d (omega (arith, e))) h

  -- The summands for `xs`, whose first has number `i`, are zero.
  abbrev Vanish : (nodes : List D) → (at : D) → (i : ℕ) → List D → Type 0
  Vanish nodes at i [] = Unit
  Vanish nodes at i (x ∷ xs) =
      (li_loop A i 0 x at A.one nodes ≡ A.nought) × Vanish nodes at (i + 1) xs

  pn_loop-nought :
      (nodes : List D) (at : D) (i : ℕ) (sum : D) (xs ys xs' ys' : List D)
      → length xs ≡ length ys
      → Vanish nodes at i xs
      → pn_loop A nodes at i sum (xs ++ xs') (ys ++ ys')
        ≡ pn_loop A nodes at (i + length xs) sum xs' ys'
  unfolding pn_loop
  pn_loop-nought nodes at i sum [] [] xs' ys' e v =
      ap (λ k. pn_loop A nodes at k sum xs' ys') (omega arith)
  pn_loop-nought nodes at i sum [] (y ∷ ys) xs' ys' e v = let no : ⊥ = omega (arith, e) in absurd no
  pn_loop-nought nodes at i sum (x ∷ xs) [] xs' ys' e v = let no : ⊥ = omega (arith, e) in absurd no
  pn_loop-nought nodes at i sum (x ∷ xs) (y ∷ ys) xs' ys' e (term, v) =
      ap (λ u. pn_loop A nodes at (i + 1) u (xs ++ xs') (ys ++ ys'))
        (ap (λ u. A.add sum (A.mul u y)) term
          ∙ ap (λ u. A.add sum u) (laws.nought_mul y)
          ∙ laws.add_nought sum)
      ∙ pn_loop-nought nodes at (i + 1) sum xs ys xs' ys' (omega (arith, e)) v
      ∙ ap (λ k. pn_loop A nodes at k sum xs' ys') (omega arith)

  pn_loop-rest :
      (nodes : List D) (at : D) (i : ℕ) (sum : D) (xs ys : List D)
      → length xs ≡ length ys
      → Vanish nodes at i xs
      → pn_loop A nodes at i sum xs ys ≡ sum
  unfolding pn_loop
  pn_loop-rest nodes at i sum xs ys e v =
      ap (λ t. pn_loop A nodes at i sum t ys) (sym (append-nil xs))
      ∙ ap (λ t. pn_loop A nodes at i sum (xs ++ []) t) (sym (append-nil ys))
      ∙ pn_loop-nought nodes at i sum xs ys [] [] e v

  Vanish-others :
      (nodes pre post : List D) (at : D) (i : ℕ) (before xs behind : List D)
      → AreDistinct nodes
      → nodes ≡ pre ++ at ∷ post
      → nodes ≡ before ++ (xs ++ behind)
      → length before ≡ i
      → ((m : ℕ) → i ≤ m → m < i + length xs → m ≢ length pre)
      → Vanish nodes at i xs
  Vanish-others nodes pre post at i before [] behind distinct split split' e apart = tt
  Vanish-others nodes pre post at i before (x ∷ xs) behind distinct split split' e apart = (
    subst (λ ns. li_loop A i 0 x at A.one ns ≡ A.nought) (sym split)
        (li_loop-other i 0 x at A.one pre post
          (λ e'. apart i (omega arith) (omega arith) (omega (arith, e')))
          (subst (λ ns. Others i 0 x ns) split
            (subst (λ ns. Others i 0 x ns) (sym split')
              (AreDistinct-Others i 0 before (xs ++ behind) x (omega (arith, e))
                (subst AreDistinct split' distinct))))),
    Vanish-others nodes pre post at (i + 1) (before ++ (x ∷ [])) xs behind distinct split
        (split' ∙ sym (append_assoc before (x ∷ []) (xs ++ behind)))
        (length-append before (x ∷ []) ∙ ap (λ k. k + 1) e)
        (λ m l u. apart m (omega (arith, l)) (omega (arith, u))),
  )

  pn_loop-node :
      (pre post : List D) (at : D) (ypre ypost : List D) (y : D)
      → length pre ≡ length ypre
      → length post ≡ length ypost
      → AreDistinct (pre ++ at ∷ post)
      → pn_loop A (pre ++ at ∷ post) at 0 A.nought (pre ++ at ∷ post) (ypre ++ y ∷ ypost) ≡ y
  unfolding pn_loop
  pn_loop-node pre post at ypre ypost y e e' distinct =
      let nodes = pre ++ at ∷ post in
      let k : ℕ = 0 + length pre in
      pn_loop-nought nodes at 0 A.nought pre ypre (at ∷ post) (y ∷ ypost) e (
        Vanish-others nodes pre post at 0 [] pre (at ∷ post) distinct refl refl refl
          (λ m l u. omega (arith, u)))
      ∙ ap (λ u. pn_loop A nodes at (k + 1) u post ypost)
          (ap (λ u. A.add A.nought (A.mul u y))
              (li_loop-one k 0 at nodes (AreDistinct-Others k 0 pre post at refl distinct))
            ∙ ap (λ u. A.add A.nought u) (laws.one_mul y)
            ∙ laws.nought_add y)
      ∙ pn_loop-rest nodes at (k + 1) y post ypost e' (
          Vanish-others nodes pre post at (k + 1) (pre ++ (at ∷ [])) post [] distinct refl
            (ap (λ t. pre ++ at ∷ t) (sym (append-nil post))
              ∙ sym (append_assoc pre (at ∷ []) (post ++ [])))
            (omega (arith, length-append pre (at ∷ []))) (λ m l u. omega (arith, l)))

  -- Where arithmetic is exact on zero and one and the nodes differ from each other, Pn at a node is the
  -- value there: at `at`, which has number `length pre` of the nodes, it is `y`.
  pub pn-node :
      (pre post : List D) (at : D) (ypre ypost : List D) (y : D)
      → length pre ≡ length ypre
      → length post ≡ length ypost
      → AreDistinct (pre ++ at ∷ post)
      → pn A (length pre + length post) (pre ++ at ∷ post) (ypre ++ y ∷ ypost) at ≡ some y
  unfolding pn
  pn-node pre post at ypre ypost y e e' distinct =
      let len : length (pre ++ at ∷ post) ≡ suc (length pre + length post) =
        omega (arith, length-append pre (at ∷ post)) in
      let len' : length (ypre ++ y ∷ ypost) ≡ suc (length pre + length post) =
        omega (arith, length-append ypre (y ∷ ypost), e, e') in
      let small : ltb (length pre + length post) (length (pre ++ at ∷ post)) ≡ true =
        ground (arith, len) in
      let small' : ltb (length pre + length post) (length (ypre ++ y ∷ ypost)) ≡ true =
        ground (arith, len') in
      rw
        (
          small,
          small',
          take-whole (suc (length pre + length post)) (pre ++ at ∷ post) len,
          take-whole (suc (length pre + length post)) (ypre ++ y ∷ ypost) len',
        )
        (ap some (pn_loop-node pre post at ypre ypost y e e' distinct))
