-- ===== src/Poly/Coefs/Values.antt =====
-- The polynomial whose coefficients setCoefs of HWs/HW2/lib.c works with, at a point.
use cse344_coursework.Base.{
  ℕ, zero, suc, ◌+◌, ◌≤◌, ◌<◌, ◌≡◌, refl, sym, ap, ◌∙◌, Bool-cases, inl, inr, All, true, false,
  some, List, [], ◌∷◌, ◌==◌, if◌then◌else◌, length, arith,
}
use cse344_coursework.Poly.{Arithmetic, li_loop}
use cse344_coursework.Poly.Coefs.{factor, factor_loop}

-- The laws of exact arithmetic, such as that of the rational numbers where a division by zero gives
-- zero.
pub record Exact {D : Type 0} (A : Arithmetic D) : Type 0 where
  pub recip : D → D
  pub div-mul : (a b : D) → A.div a b ≡ A.mul a (recip b)
  pub sub-add : (a b : D) → A.sub a b ≡ A.add a (A.neg b)
  pub add_assoc : (a b c : D) → A.add (A.add a b) c ≡ A.add a (A.add b c)
  pub add_comm : (a b : D) → A.add a b ≡ A.add b a
  pub add-nought : (a : D) → A.add a A.nought ≡ a
  pub mul_assoc : (a b c : D) → A.mul (A.mul a b) c ≡ A.mul a (A.mul b c)
  pub mul_comm : (a b : D) → A.mul a b ≡ A.mul b a
  pub mul-one : (a : D) → A.mul a A.one ≡ a
  pub mul-nought : (a : D) → A.mul a A.nought ≡ A.nought
  pub mul-add : (a b c : D) → A.mul a (A.add b c) ≡ A.add (A.mul a b) (A.mul a c)

module _ {D : Type 0} (A : Arithmetic D) (e : Exact A) where
  -- The polynomial with the coefficients at a point.
  unfoldable pub value : List D → D → D
  value [] at = A.nought
  value (c ∷ cs) at = A.add c (A.mul at (value cs at))

  pub add_left_comm : (a b c : D) → A.add a (A.add b c) ≡ A.add b (A.add a c)
  add_left_comm a b c =
      sym (e.add_assoc a b c) ∙ ap (λ t. A.add t c) (e.add_comm a b) ∙ e.add_assoc b a c

  pub mul_left_comm : (a b c : D) → A.mul a (A.mul b c) ≡ A.mul b (A.mul a c)
  mul_left_comm a b c =
      sym (e.mul_assoc a b c) ∙ ap (λ t. A.mul t c) (e.mul_comm a b) ∙ e.mul_assoc b a c

  pub add-mul : (a b c : D) → A.mul (A.add a b) c ≡ A.add (A.mul a c) (A.mul b c)
  add-mul a b c = e.mul_comm (A.add a b) c ∙ e.mul-add c a b ∙ simp e.mul_comm

  pub one-mul : (a : D) → A.mul A.one a ≡ a
  one-mul a = e.mul_comm A.one a ∙ e.mul-one a

  pub nought-mul : (a : D) → A.mul A.nought a ≡ A.nought
  nought-mul a = e.mul_comm A.nought a ∙ e.mul-nought a

  -- What the loop on `newCoef` leaves behind the first coefficient, `below`.
  abbrev shifted : (f d below : D) → List D → List D
  shifted f d below [] = []
  shifted f d below (c ∷ cs) = A.add (A.mul c f) (A.div below d) ∷ shifted f d c cs

  -- The last of `below ∷ cs` is zero.
  abbrev LastNought : (below : D) → List D → Type 0
  LastNought below [] = below ≡ A.nought
  LastNought below (c ∷ cs) = LastNought c cs

  value-shifted :
      (f d below at : D) (cs : List D)
      → LastNought below cs
      → value (shifted f d below cs) at
        ≡ A.add (A.mul (value cs at) f) (A.div (A.add below (A.mul at (value cs at))) d)
  unfolding value
  value-shifted f d below at [] h = rw h (simp (e.div-mul, nought-mul, e.mul-nought, e.add-nought))
  value-shifted f d below at (c ∷ cs) h = rw (value-shifted f d c at cs h) (
      simp (
        e.div-mul, e.add_assoc, e.add_comm, add_left_comm, e.mul_assoc, e.mul_comm, mul_left_comm,
        e.mul-add, add-mul,
      ))

  no_length {ℓ} : {P : Type ℓ} → ⊥ → P
  no_length h = absurd h

  factor-shifted :
      (xi xn c : D) (cs : List D)
      → length cs ≡ 6
      → factor A xi xn (c ∷ cs)
        ≡ some (
            A.mul c (A.div (A.neg xn) (A.sub xi xn))
            ∷ shifted (A.div (A.neg xn) (A.sub xi xn)) (A.sub xi xn) c cs)
  unfolding factor
  factor-shifted xi xn c ([]) e = no_length (omega (arith, e))
  factor-shifted xi xn c (c1 ∷ []) e = no_length (omega (arith, e))
  factor-shifted xi xn c (c1 ∷ c2 ∷ []) e = no_length (omega (arith, e))
  factor-shifted xi xn c (c1 ∷ c2 ∷ c3 ∷ []) e = no_length (omega (arith, e))
  factor-shifted xi xn c (c1 ∷ c2 ∷ c3 ∷ c4 ∷ []) e = no_length (omega (arith, e))
  factor-shifted xi xn c (c1 ∷ c2 ∷ c3 ∷ c4 ∷ c5 ∷ []) e = no_length (omega (arith, e))
  factor-shifted xi xn c (c1 ∷ c2 ∷ c3 ∷ c4 ∷ c5 ∷ c6 ∷ []) e = refl
  factor-shifted xi xn c (c1 ∷ c2 ∷ c3 ∷ c4 ∷ c5 ∷ c6 ∷ c7 ∷ cs) e = no_length (omega (arith, e))

  length-shifted : (f d below : D) (cs : List D) → length (shifted f d below cs) ≡ length cs
  length-shifted f d below [] = refl
  length-shifted f d below (c ∷ cs) = ap suc (length-shifted f d c cs)

  -- The coefficients behind the one with number `m` are zero.
  abbrev pub Degree : ℕ → List D → Type 0
  Degree m [] = Unit
  Degree zero (c ∷ cs) = All (λ a. a ≡ A.nought) cs
  Degree (suc m) (c ∷ cs) = Degree m cs

  shifted-nought :
      (f d below : D) (cs : List D)
      → below ≡ A.nought
      → All (λ a. a ≡ A.nought) cs
      → All (λ a. a ≡ A.nought) (shifted f d below cs)
  shifted-nought f d below [] b h = tt
  shifted-nought f d below (c ∷ cs) b (z, h) =
      (rw (b, z) (simp (e.div-mul, nought-mul, e.add-nought)), shifted-nought f d c cs z h)

  Degree-shifted :
      (m : ℕ) (f d below : D) (cs : List D)
      → Degree m (below ∷ cs)
      → Degree m (shifted f d below cs)
  Degree-shifted zero f d below [] h = tt
  Degree-shifted zero f d below (c ∷ cs) (z, h) = shifted-nought f d c cs z h
  Degree-shifted (suc m) f d below [] h = tt
  Degree-shifted (suc m) f d below (c ∷ cs) h = Degree-shifted m f d c cs h

  All-LastNought :
      (below : D) (cs : List D)
      → below ≡ A.nought
      → All (λ a. a ≡ A.nought) cs
      → LastNought below cs
  All-LastNought below [] b h = b
  All-LastNought below (c ∷ cs) b (z, h) = All-LastNought c cs z h

  Degree-LastNought :
      (m : ℕ) (below : D) (cs : List D)
      → m < length cs
      → Degree m (below ∷ cs)
      → LastNought below cs
  Degree-LastNought m below [] l h = absurd (omega (arith, l))
  Degree-LastNought zero below (c ∷ cs) l (z, h) = All-LastNought c cs z h
  Degree-LastNought (suc m) below (c ∷ cs) l h = Degree-LastNought m c cs (omega (arith, l)) h

  factor_identity :
      (c v at xn d : D)
      → A.add
          (A.mul c (A.div (A.neg xn) d))
          (A.mul at (A.add (A.mul v (A.div (A.neg xn) d)) (A.div (A.add c (A.mul at v)) d)))
        ≡ A.div (A.mul (A.add c (A.mul at v)) (A.sub at xn)) d
  factor_identity c v at xn d = simp (
    e.div-mul, e.sub-add, e.add_assoc, e.add_comm, add_left_comm, e.mul_assoc, e.mul_comm,
    mul_left_comm, e.mul-add, add-mul,
  )

  -- One more factor on a polynomial of a degree below 6.
  pub factor-value :
      (xi xn : D) (m : ℕ) (cs : List D)
      → m < 6
      → length cs ≡ 7
      → Degree m cs
      → (new : List D) × (factor A xi xn cs ≡ some new)
        × (length new ≡ 7)
        × Degree (suc m) new
        × ((at : D) → value new at ≡ A.div (A.mul (value cs at) (A.sub at xn)) (A.sub xi xn))
  unfolding value
  factor-value xi xn m [] l len h = absurd (omega (arith, len))
  factor-value xi xn m (c ∷ cs) l len h =
      let d = A.sub xi xn in
      let f = A.div (A.neg xn) d in
      (
        A.mul c f ∷ shifted f d c cs,
        factor-shifted xi xn c cs (omega (arith, len)),
        omega (arith, length-shifted f d c cs, len),
        Degree-shifted m f d c cs h,
        λ at.
            ap (λ t. A.add (A.mul c f) (A.mul at t))
              (value-shifted f d c at cs (Degree-LastNought m c cs (omega (arith, l, len)) h))
            ∙ factor_identity c (value cs at) at xn d,
      )

  -- How many nodes the loop does not skip.
  unfoldable pub factors : (i n : ℕ) → List D → ℕ
  factors i n [] = 0
  factors i n (x ∷ nodes) =
      if i == n then factors i (n + 1) nodes else suc (factors i (n + 1) nodes)

  factor_loop-skip :
      (i n : ℕ) (xi x : D) (nodes cs : List D)
      → (i == n) ≡ true
      → factor_loop A i n xi (x ∷ nodes) cs ≡ factor_loop A i (n + 1) xi nodes cs
  unfolding factor_loop
  factor_loop-skip i n xi x nodes cs same = rw same

  factor_loop-step :
      (i n : ℕ) (xi x : D) (nodes cs : List D) {mid : List D}
      → (i == n) ≡ false
      → factor A xi x cs ≡ some mid
      → factor_loop A i n xi (x ∷ nodes) cs ≡ factor_loop A i (n + 1) xi nodes mid
  unfolding factor_loop
  factor_loop-step i n xi x nodes cs other step = rw (other, step)

  pub factor_loop-value :
      (i n : ℕ) (xi : D) (m : ℕ) (nodes cs : List D)
      → m + factors i n nodes ≤ 6
      → length cs ≡ 7
      → Degree m cs
      → (new : List D) × (factor_loop A i n xi nodes cs ≡ some new)
        × (length new ≡ 7)
        × ((at : D) → value new at ≡ li_loop A i n xi at (value cs at) nodes)
  unfolding li_loop factors factor_loop
  factor_loop-value i n xi m [] cs l len h = (cs, refl, len, λ at. refl)
  factor_loop-value i n xi m (x ∷ nodes) cs l len h = elim (Bool-cases (i == n)) [
    | inl same ↦
        let same' : (n == i) ≡ true = ground (arith, same) in
        let l' : m + factors i (n + 1) nodes ≤ 6 = ground (arith, l, same) in
        let (new, run, len', v) = factor_loop-value i (n + 1) xi m nodes cs l' len h in
        (new, factor_loop-skip i n xi x nodes cs same ∙ run, len', λ at. rw same' (v at))
    | inr other ↦
        let other' : (n == i) ≡ false = ground (arith, other) in
        let l' : suc m + factors i (n + 1) nodes ≤ 6 = ground (arith, l, other) in
        let (mid, step, len1, deg, v1) = factor-value xi x m cs (omega (arith, l')) len h in
        let (new, run, len', v) = factor_loop-value i (n + 1) xi (suc m) nodes mid l' len1 deg in
        (
          new,
          factor_loop-step i n xi x nodes cs other step ∙ run,
          len',
          λ at. rw other' (v at ∙ ap (λ t. li_loop A i (n + 1) xi at t nodes) (v1 at)),
        )
  ]
