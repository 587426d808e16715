-- ===== src/Tests/Sevens.antt =====
-- The field of the numbers modulo seven.
use cse344_coursework.Base.{
  ◌≢◌, ◌||◌, not, Bool-cases, inl, inr, ℕ, ◌+◌, ◌*◌, ◌%◌, ◌-◌, ◌^◌, ◌≡◌, refl, sym, ap, ◌∙◌, Bool,
  true, ◌&&◌, ◌==◌, if◌then◌else◌, arith,
}
use cse344_coursework.Poly.{Arithmetic}
use cse344_coursework.Poly.Coefs.Values.{Exact}
use cse344_coursework.Poly.Nodes.{Laws}

pub data Seven : Type 0 where
  s0 s1 s2 s3 s4 s5 s6 : Seven

abbrev pub code : Seven → ℕ
code s0 = 0
code s1 = 1
code s2 = 2
code s3 = 3
code s4 = 4
code s5 = 5
code s6 = 6

abbrev pub from : ℕ → Seven
from n =
    let r = n % 7 in
    if r == 0
    then s0
    else if r == 1
    then s1
    else if r == 2
    then s2
    else if r == 3
    then s3
    else if r == 4
    then s4
    else if r == 5
    then s5
    else s6

from-code : (a : Seven) → from (code a) ≡ a
from-code s0 = refl
from-code s1 = refl
from-code s2 = refl
from-code s3 = refl
from-code s4 = refl
from-code s5 = refl
from-code s6 = refl

abbrev same : Seven → Seven → Bool
same a b = code a == code b

same-eq : (a b : Seven) → same a b ≡ true → a ≡ b
same-eq a b e =
    let codes_equal : code a ≡ code b = ground (arith, e) in
    sym (from-code a) ∙ ap from codes_equal ∙ from-code b

abbrev every : (Seven → Bool) → Bool
every t = t s0 && (t s1 && (t s2 && (t s3 && (t s4 && (t s5 && t s6)))))

every-holds : (t : Seven → Bool) → every t ≡ true → (a : Seven) → t a ≡ true
every-holds t e s0 = ground arith
every-holds t e s1 = ground arith
every-holds t e s2 = ground arith
every-holds t e s3 = ground arith
every-holds t e s4 = ground arith
every-holds t e s5 = ground arith
every-holds t e s6 = ground arith

abbrev add : Seven → Seven → Seven
add a b = from (code a + code b)

abbrev pub mul : Seven → Seven → Seven
mul a b = from (code a * code b)

abbrev neg : Seven → Seven
neg a = from (7 - code a)

abbrev pub recip : Seven → Seven
recip a = from (code a ^ 5)

abbrev pub sevens : Arithmetic Seven
sevens = record {
  nought = s0;
  one = s1;
  add = add;
  sub = λ a b. add a (neg b);
  mul = mul;
  div = λ a b. mul a (recip b);
  neg = neg;
}

law1 : (f g : Seven → Seven) → every (λ a. same (f a) (g a)) ≡ true → (a : Seven) → f a ≡ g a
law1 f g e a = same-eq (f a) (g a) (every-holds (λ x. same (f x) (g x)) e a)

law2 :
    (f g : Seven → Seven → Seven)
    → every (λ a. every (λ b. same (f a b) (g a b))) ≡ true
    → (a b : Seven) → f a b ≡ g a b
law2 f g e a b = law1 (f a) (g a) (every-holds (λ x. every (λ y. same (f x y) (g x y))) e a) b

law3 :
    (f g : Seven → Seven → Seven → Seven)
    → every (λ a. every (λ b. every (λ c. same (f a b c) (g a b c)))) ≡ true
    → (a b c : Seven) → f a b c ≡ g a b c
law3 f g e a b c =
    law2 (f a) (g a) (every-holds (λ x. every (λ y. every (λ z. same (f x y z) (g x y z)))) e a) b c

check2 :
    (t : Seven → Seven → Bool)
    → every (λ a. every (λ b. t a b)) ≡ true
    → (a b : Seven) → t a b ≡ true
check2 t e a b = every-holds (t a) (every-holds (λ x. every (t x)) e a) b

pub sevens-Exact : Exact sevens
sevens-Exact = record {
  recip = recip;
  div-mul = λ a b. refl;
  sub-add = λ a b. refl;
  add_assoc = law3 (λ a b c. add (add a b) c) (λ a b c. add a (add b c)) refl;
  add_comm = law2 add (λ a b. add b a) refl;
  add-nought = law1 (λ a. add a s0) (λ a. a) refl;
  mul_assoc = law3 (λ a b c. mul (mul a b) c) (λ a b c. mul a (mul b c)) refl;
  mul_comm = law2 mul (λ a b. mul b a) refl;
  mul-one = law1 (λ a. mul a s1) (λ a. a) refl;
  mul-nought = law1 (λ a. mul a s0) (λ a. s0) refl;
  mul-add = law3 (λ a b c. mul a (add b c)) (λ a b c. add (mul a b) (mul a c)) refl;
}

sub_ne : (a b : Seven) → a ≢ b → sevens.sub a b ≢ s0
sub_ne a b ne e =
    let check : (same a b || not (same (sevens.sub a b) s0)) ≡ true =
      check2 (λ x y. same x y || not (same (sevens.sub x y) s0)) refl a b in
    let nought : same (sevens.sub a b) s0 ≡ true = ap (λ t. same t s0) e in
    ne (same-eq a b (ground (arith, check, nought)))

div_self : (a : Seven) → a ≢ s0 → sevens.div a a ≡ s1
div_self a ne =
    let check : (same a s0 || same (sevens.div a a) s1) ≡ true =
      every-holds (λ x. same x s0 || same (sevens.div x x) s1) refl a in
    elim (Bool-cases (same a s0)) [
      | inl nought ↦ absurd (ne (same-eq a s0 nought))
      | inr other ↦ same-eq (sevens.div a a) s1 (ground (arith, check, other))
    ]

pub sevens-Laws : Laws sevens
sevens-Laws = record {
  sub_self = law1 (λ a. sevens.sub a a) (λ a. s0) refl;
  sub_ne = sub_ne;
  mul_nought = law1 (λ a. mul a s0) (λ a. s0) refl;
  nought_mul = law1 (λ a. mul s0 a) (λ a. s0) refl;
  one_mul = law1 (λ a. mul s1 a) (λ a. a) refl;
  nought_div = λ a ne. law1 (λ b. sevens.div s0 b) (λ b. s0) refl a;
  div_self = div_self;
  add_nought = law1 (λ a. add a s0) (λ a. a) refl;
  nought_add = law1 (λ a. add s0 a) (λ a. a) refl;
}
