-- ===== src/Finder/Printed.antt =====
-- The lines of a tree that `traverse` of HWs/HW1/main.c prints.
use cse344_coursework.Base.{
  ℕ, ◌+◌, ◌-◌, ◌*◌, ◌≡◌, refl, ap, ◌∙◌, Bool, true, false, ◌||◌, List, [], ◌∷◌, ◌++◌, Bytes, codes,
  str_eq, str_eq_iff, str_eq_refl, replicate, arith, Bool-cases, inl, inr,
}
use cse344_coursework.Finder.Tree.{Tree, leaf, node, has, traverse}

-- The line for the path `p ∷ path` below a node with the depth: its last part, behind two dashes more
-- for every part before it.
unfoldable pub line_of : (depth : ℕ) → (p : Bytes) → (path : List Bytes) → Bytes
line_of depth p [] = codes "|-" ++ (replicate (depth * 2 - 1) b'-' ++ p)
line_of depth p (q ∷ path) = line_of (depth + 1) q path

unfoldable pub is_line : Bytes → List Bytes → Bool
is_line l [] = false
is_line l (m ∷ lines) = str_eq l m || is_line l lines

is_line-left : (l : Bytes) (xs ys : List Bytes) → is_line l xs ≡ true → is_line l (xs ++ ys) ≡ true
unfolding is_line
is_line-left l [] ys h = cc
is_line-left l (m ∷ xs) ys h = elim (Bool-cases (str_eq l m)) [
  | inl e ↦ rw e refl
  | inr e ↦ rw e (is_line-left l xs ys (ground (arith, h, e)))
]

pub is_line-right :
    (l : Bytes) (xs ys : List Bytes) → is_line l ys ≡ true → is_line l (xs ++ ys) ≡ true
unfolding is_line
is_line-right l [] ys h = h
is_line-right l (m ∷ xs) ys h = let rest = is_line-right l xs ys h in ground (arith, rest)

-- Every path of the tree has its line.
pub traverse-has :
    (t : Tree) (depth : ℕ) (p : Bytes) (path : List Bytes)
    → has t (p ∷ path) ≡ true
    → is_line (line_of depth p path) (traverse t depth) ≡ true
unfolding has traverse line_of is_line
traverse-has leaf depth p path h = cc
traverse-has (node f child next) depth p [] h = elim (Bool-cases (str_eq f p)) [
  | inl e ↦
      let same : f ≡ p = (str_eq_iff f p).0 e in
      let line = λ (g : Bytes). codes "|-" ++ (replicate (depth * 2 - 1) b'-' ++ g) in
      let head : str_eq (line p) (line f) ≡ true =
        ap (λ g. str_eq (line p) (line g)) same ∙ str_eq_refl (line p) in
      rw head refl
  | inr e ↦
      is_line-right (line_of depth p [])
        ((codes "|-" ++ (replicate (depth * 2 - 1) b'-' ++ f)) ∷ traverse child (depth + 1))
        (traverse next depth) (traverse-has next depth p [] (rw (has, e) at h))
]
traverse-has (node f child next) depth p (q ∷ path) h = elim (Bool-cases (str_eq f p)) [
  | inl e ↦
      is_line-right (line_of (depth + 1) q path)
        ((codes "|-" ++ (replicate (depth * 2 - 1) b'-' ++ f)) ∷ [])
        (traverse child (depth + 1) ++ traverse next depth)
        (is_line-left (line_of (depth + 1) q path) (traverse child (depth + 1))
          (traverse next depth) (traverse-has child (depth + 1) q path (rw (has, e) at h)))
  | inr e ↦
      is_line-right (line_of depth p (q ∷ path))
        ((codes "|-" ++ (replicate (depth * 2 - 1) b'-' ++ f)) ∷ traverse child (depth + 1))
        (traverse next depth) (traverse-has next depth p (q ∷ path) (rw (has, e) at h))
]
