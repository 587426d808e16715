-- ===== src/Finder/Tree.antt =====
-- The tree of found paths: `add` and `traverse` of HWs/HW1/main.c. A tree is a first child and a next
-- sibling; the null pointer is `leaf`. Allocation succeeds.
use cse344_coursework.Base.{
  ℕ, ◌+◌, ◌-◌, ◌*◌, ◌≡◌, refl, Bool, true, false, ◌&&◌, ◌||◌, List, [], ◌∷◌, ◌++◌, Bool-cases, inl,
  inr, Bytes, codes, str_eq, str_eq_iff, replicate, arith, ap, ◌∙◌, sym,
}

pub data Tree : Type 0 where
  leaf : Tree
  node : (filename : Bytes) → (child next : Tree) → Tree

-- `add`, with `path` from index `cur` on: the first sibling with the name takes the rest of the path;
-- if none has it, a new node goes behind the last.
unfoldable pub add : Tree → (path : List Bytes) → Tree
add leaf [] = leaf
add leaf (p ∷ path) = node p (add leaf path) leaf
add (node f child next) [] = node f child next
add (node f child next) (p ∷ path) = elim (str_eq f p) [
  | true ↦ node f (add child path) next
  | false ↦ node f child (add next (p ∷ path))
]

-- The lines that `traverse` prints.
unfoldable pub traverse : Tree → (depth : ℕ) → List Bytes
traverse leaf depth = []
traverse (node f child next) depth =
    (codes "|-" ++ (replicate (depth * 2 - 1) b'-' ++ f))
    ∷ (traverse child (depth + 1) ++ traverse next depth)

-- The paths of a tree: from the first sibling with the right name downwards.
unfoldable pub has : Tree → List Bytes → Bool
has t [] = true
has leaf (p ∷ path) = false
has (node f child next) (p ∷ path) = elim (str_eq f p) [
  | true ↦ has child path
  | false ↦ has next (p ∷ path)
]

unfoldable pub is_prefix : List Bytes → List Bytes → Bool
is_prefix [] path = true
is_prefix (q ∷ qs) [] = false
is_prefix (q ∷ qs) (p ∷ path) = str_eq q p && is_prefix qs path

pub count : Tree → ℕ
count leaf = 0
count (node f child next) = 1 + count child + count next

str_eq_sym : (p q : Bytes) → str_eq p q ≡ str_eq q p
str_eq_sym [] [] = refl
str_eq_sym [] (y ∷ q) = refl
str_eq_sym (x ∷ p) [] = refl
str_eq_sym (x ∷ p) (y ∷ q) = ground (arith, str_eq_sym p q)

pub same-name : (f p q : Bytes) → str_eq f p ≡ true → str_eq f q ≡ str_eq q p
same-name f p q e = ap (λ x. str_eq x q) ((str_eq_iff f p).0 e) ∙ str_eq_sym p q

has-leaf : (q : List Bytes) → has leaf q ≡ is_prefix q []
unfolding has is_prefix
has-leaf [] = refl
has-leaf (q ∷ qs) = refl

leaf-absorbs : (q path : List Bytes) → (has leaf q || is_prefix q path) ≡ is_prefix q path
unfolding has is_prefix
leaf-absorbs [] path = refl
leaf-absorbs (q ∷ qs) path = refl

has-here :
    (f : Bytes) (child next : Tree) (q : Bytes) (qs : List Bytes)
    → str_eq f q ≡ true
    → has (node f child next) (q ∷ qs) ≡ has child qs
unfolding has
has-here f child next q qs e = rw (has, e)

has-there :
    (f : Bytes) (child next : Tree) (q : Bytes) (qs : List Bytes)
    → str_eq f q ≡ false
    → has (node f child next) (q ∷ qs) ≡ has next (q ∷ qs)
unfolding has
has-there f child next q qs e = rw (has, e)

-- The node itself has the name.
add-here :
    (f : Bytes) (child next : Tree) (p : Bytes) (path : List Bytes)
    → str_eq f p ≡ true
    → add (node f child next) (p ∷ path) ≡ node f (add child path) next
unfolding add
add-here f child next p path e = rw (add, e)

add-there :
    (f : Bytes) (child next : Tree) (p : Bytes) (path : List Bytes)
    → str_eq f p ≡ false
    → add (node f child next) (p ∷ path) ≡ node f child (add next (p ∷ path))
unfolding add
add-there f child next p path e = rw (add, e)

prefix-differs :
    (q p : Bytes) (qs path : List Bytes)
    → str_eq q p ≡ false
    → is_prefix (q ∷ qs) (p ∷ path) ≡ false
unfolding is_prefix
prefix-differs q p qs path e = rw e

prefix-same :
    (q p : Bytes) (qs path : List Bytes)
    → str_eq q p ≡ true
    → is_prefix (q ∷ qs) (p ∷ path) ≡ is_prefix qs path
unfolding is_prefix
prefix-same q p qs path e = rw e

or_false : (b : Bool) → b ≡ (b || false)
or_false true = refl
or_false false = refl

-- After `add` the tree has the paths that it had, the new path and that path's beginnings, and no
-- others.
pub has-add : (t : Tree) (path q : List Bytes) → has (add t path) q ≡ (has t q || is_prefix q path)
unfolding has add is_prefix
has-add leaf [] [] = refl
has-add leaf [] (q ∷ qs) = refl
has-add leaf (p ∷ path) [] = refl
has-add leaf (p ∷ path) (q ∷ qs) = elim (Bool-cases (str_eq p q)) [
  | inl e ↦
      has-here p (add leaf path) leaf q qs e
      ∙ has-add leaf path qs
      ∙ leaf-absorbs qs path
      ∙ sym (prefix-same q p qs path (str_eq_sym q p ∙ e))
  | inr e ↦
      has-there p (add leaf path) leaf q qs e
      ∙ sym (prefix-differs q p qs path (str_eq_sym q p ∙ e))
]
has-add (node f child next) [] [] = refl
has-add (node f child next) [] (q ∷ qs) = or_false _
has-add (node f child next) (p ∷ path) [] = ground arith
has-add (node f child next) (p ∷ path) (q ∷ qs) = elim (Bool-cases (str_eq f p)) [
  | inl e ↦
      ap (λ t. has t (q ∷ qs)) (add-here f child next p path e)
      ∙ (ground (
        arith,
        same-name f p q e,
        has-here f (add child path) next q qs,
        has-here f child next q qs,
        has-there f (add child path) next q qs,
        has-there f child next q qs,
        has-add child path qs,
        prefix-same q p qs path,
        prefix-differs q p qs path,
      ))
  | inr e ↦
      ap (λ t. has t (q ∷ qs)) (add-there f child next p path e)
      ∙ (ground (
        arith,
        same-name f q p,
        str_eq_sym p q,
        e,
        has-here f child (add next (p ∷ path)) q qs,
        has-here f child next q qs,
        has-there f child (add next (p ∷ path)) q qs,
        has-there f child next q qs,
        has-add next (p ∷ path) (q ∷ qs),
        prefix-differs q p qs path,
      ))
]
