-- ===== src/Tests/Polynomials.antt =====
-- Runs of Pn, and the arithmetic of the field of two elements.
use cse344_coursework.Base.{
  ◌-◌, ℕ, ◌+◌, ◌≡◌, refl, sym, ◌∙◌, ◌≢◌, Bool, true, false, not, ◌&&◌, some, List, [], ◌∷◌, ◌==◌,
  if◌then◌else◌, Bytes, codes, length, replicate, arith,
}
use cse344_coursework.Poly.Coefs.{set_coefs}
use cse344_coursework.Poly.Coefs.Values.{value}
use cse344_coursework.Poly.Coefs.Through.{set_coefs-nodes}
use cse344_coursework.Poly.{Arithmetic, pn}
use cse344_coursework.Tests.Sevens.{
  sevens-Laws, Seven, s0, s1, s2, s3, s4, s5, s6, code, from, mul, sevens, sevens-Exact,
}
use cse344_coursework.Poly.Nodes.{Laws, AreDistinct, pn-node}

abbrev xor : Bool → Bool → Bool
xor true b = not b
xor false b = b

abbrev two : Arithmetic Bool
two = record {
  nought = false;
  one = true;
  add = xor;
  sub = xor;
  mul = λ a b. a && b;
  div = λ a b. a && b;
  neg = λ a. a;
}

distinct : (a b : Bool) → a ≢ b → xor a b ≡ true
distinct true true n = absurd (n refl)
distinct true false n = refl
distinct false true n = refl
distinct false false n = absurd (n refl)

true_ne_false : true ≢ false
true_ne_false e = cc

nonzero : (a : Bool) → a ≢ false → a && a ≡ true
nonzero true n = refl
nonzero false n = absurd (n refl)

two-Laws : Laws two
two-Laws = record {
  sub_self = λ a. elim a as (λ k. two.sub k k ≡ two.nought) [ true ↦ refl | false ↦ refl ];
  sub_ne = λ a b n e. let no : true ≡ false = sym (distinct a b n) ∙ e in true_ne_false no;
  mul_nought =
      λ a. elim a as (λ k. two.mul k two.nought ≡ two.nought) [ true ↦ refl | false ↦ refl ];
  nought_mul = λ _. refl;
  one_mul = λ _. refl;
  nought_div = λ _ _. refl;
  div_self = nonzero;
  add_nought = λ a. elim a as (λ k. two.add k two.nought ≡ k) [ true ↦ refl | false ↦ refl ];
  nought_add = λ _. refl;
}

pn_run : pn two 1 (true ∷ false ∷ []) (false ∷ true ∷ []) false ≡ some true
unfolding pn
pn_run = refl

pn-node_example : pn two 1 (true ∷ false ∷ []) (false ∷ true ∷ []) false ≡ some true
pn-node_example =
    pn-node two two-Laws (true ∷ []) [] false (false ∷ []) [] true refl refl
      ((true_ne_false, tt), (tt, tt))

-- All seven numbers are nodes.
abbrev nodes : List Seven
nodes = s0 ∷ s1 ∷ s2 ∷ s3 ∷ s4 ∷ s5 ∷ s6 ∷ []

abbrev values : List Seven
values = s3 ∷ s1 ∷ s4 ∷ s1 ∷ s5 ∷ s2 ∷ s6 ∷ []

nodes-AreDistinct : AreDistinct nodes
nodes-AreDistinct = (
  ((λ e. cc), ((λ e. cc), ((λ e. cc), ((λ e. cc), ((λ e. cc), ((λ e. cc), tt)))))),
  (
    ((λ e. cc), ((λ e. cc), ((λ e. cc), ((λ e. cc), ((λ e. cc), tt))))),
    (
      ((λ e. cc), ((λ e. cc), ((λ e. cc), ((λ e. cc), tt)))),
      (
        ((λ e. cc), ((λ e. cc), ((λ e. cc), tt))),
        (((λ e. cc), ((λ e. cc), tt)), (((λ e. cc), tt), (tt, tt))),
      ),
    ),
  ),
)

set_coefs-nodes_example :
    (cs : List Seven) × (set_coefs sevens nodes values ≡ some cs)
    × (length cs ≡ 7)
    × ((point : Seven) → pn sevens 6 nodes values point ≡ some (value sevens sevens-Exact cs point))
    × (value sevens sevens-Exact cs s2 ≡ s4)
set_coefs-nodes_example =
    set_coefs-nodes sevens sevens-Exact sevens-Laws nodes values (s0 ∷ s1 ∷ [])
      (s3 ∷ s4 ∷ s5 ∷ s6 ∷ []) s2 (s3 ∷ s1 ∷ []) (s1 ∷ s5 ∷ s2 ∷ s6 ∷ []) s4 (omega arith)
      (omega arith) refl refl refl nodes-AreDistinct

-- Numbers of one digit.
abbrev scan : Bytes → List Seven
scan [] = []
scan (c ∷ line) = if c == b',' then scan line else from (c - b'0') ∷ scan line

abbrev print : Seven → Bytes
print a = (b'0' + code a) ∷ []

-- Eight pairs with nodes that differ but for the last.
abbrev pairs : Bytes
pairs = codes "0,3,1,1,2,4,3,1,4,5,5,2,6,6,3,1"

abbrev eight_rows : List Bytes
eight_rows = replicate 8 pairs

abbrev no_newline : ℕ → Bool
no_newline c = not (c == b'\n')

abbrev lock_order : List ℕ
lock_order = 7 ∷ 0 ∷ 2 ∷ 1 ∷ 3 ∷ 5 ∷ 4 ∷ 6 ∷ []

abbrev other_order : List ℕ
other_order = 0 ∷ 1 ∷ 2 ∷ 3 ∷ 4 ∷ 5 ∷ 6 ∷ 7 ∷ []
