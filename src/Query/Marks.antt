-- ===== src/Query/Marks.antt =====
-- Which columns the tokens of a SELECT mark.
use cse344_coursework.Base.{
  ℕ, suc, ◌+◌, ◌≡◌, refl, ap, ◌∙◌, All, Bool, true, false, ◌||◌, none, some, List, [], ◌∷◌, ◌++◌,
  Bool-cases, Option-cases, inl, inr, Bytes, codes, str_eq, str_eq_iff, set, arith,
}
use cse344_coursework.Query.{Row, find_column, which_header, mark_columns}

-- A mark for each name that the test accepts.
unfoldable pub mask_of : (Bytes → Bool) → Row → List Bool
mask_of f [] = []
mask_of f (n ∷ names) = f n ∷ mask_of f names

-- Column names are pairwise different.
abbrev pub Distinct : Row → Type 0
Distinct [] = Unit
Distinct (n ∷ names) = All (λ m. str_eq m n ≡ false) names × Distinct names

abbrev pub or_name : (Bytes → Bool) → Bytes → Bytes → Bool
or_name f t n = f n || str_eq n t

mask-others :
    (f : Bytes → Bool) (t : Bytes) (names : Row)
    → All (λ m. str_eq m t ≡ false) names
    → mask_of (or_name f t) names ≡ mask_of f names
unfolding mask_of
mask-others f t [] h = refl
mask-others f t (n ∷ names) (h, hs) = ground (arith, mask-others f t names hs)

find_column-none :
    (f : Bytes → Bool) (t : Bytes) (names : Row) (j : ℕ)
    → find_column t names j ≡ none
    → mask_of (or_name f t) names ≡ mask_of f names
unfolding find_column mask_of
find_column-none f t [] j h = refl
find_column-none f t (n ∷ names) j h = elim (Bool-cases (str_eq n t)) [
  | inl e ↦ cc (rw e at h)
  | inr e ↦ ground (arith, find_column-none f t names (j + 1))
]

pub find_column-some :
    (f : Bytes → Bool) (t : Bytes) (names : Row) (j k : ℕ)
    → Distinct names
    → find_column t names j ≡ some k
    → (i : ℕ) × (k ≡ j + i) × (set (mask_of f names) i true ≡ mask_of (or_name f t) names)
unfolding find_column mask_of
find_column-some f t [] j k d h = cc
find_column-some f t (n ∷ names) j k (d, ds) h = elim (Bool-cases (str_eq n t)) [
  | inl e ↦
      (0, ground arith, ground (arith, mask-others f t names (rw ((str_eq_iff n t).0 e) at d)))
  | inr e ↦
      let (i, ei, es) = find_column-some f t names (j + 1) k ds (ground arith) in
      (suc i, omega (arith, ei), ground (arith, es))
]

-- Some column has a name among these.
abbrev pub elem : List Bytes → Bytes → Bool
elem [] n = false
elem (t ∷ ts) n = str_eq n t || elem ts n

abbrev pub or_names : (Bytes → Bool) → List Bytes → Bytes → Bool
or_names f ts n = f n || elem ts n

mask-ext :
    (f g : Bytes → Bool) (names : Row)
    → ((n : Bytes) → f n ≡ g n)
    → mask_of f names ≡ mask_of g names
unfolding mask_of
mask-ext f g [] h = refl
mask-ext f g (n ∷ names) h = ground (arith, h n, mask-ext f g names h)

or_assoc :
    (f : Bytes → Bool) (t : Bytes) (ts : List Bytes) (n : Bytes)
    → or_names (or_name f t) ts n ≡ or_names f (t ∷ ts) n
or_assoc f t ts n = ground arith

or_none : (f : Bytes → Bool) (n : Bytes) → f n ≡ or_names f [] n
or_none f n = ground arith

-- With `p` set, the tokens up to FROM mark the columns that they name, and nothing else.
pub mark_columns-mask :
    (names : Row) (f : Bytes → Bool) (cols rest : List Bytes)
    → Distinct names
    → All (λ t. str_eq t (codes "FROM") ≡ false) cols
    → mark_columns names (cols ++ (codes "FROM" ∷ rest)) (mask_of f names) true
      ≡ some (mask_of (or_names f cols) names, true)
unfolding mark_columns which_header
mark_columns-mask names f [] rest d h =
    ap (λ m. some (m, true)) (mask-ext f (or_names f []) names (or_none f))
mark_columns-mask names f (t ∷ cols) rest d (h, hs) = elim (Option-cases (find_column t names 0)) [
  | inl e ↦
      rw (h, e, ← find_column-none f t names 0 e)
        (mark_columns-mask names (or_name f t) cols rest d hs
          ∙ ap (λ m. some (m, true)) (mask-ext _ _ names (or_assoc f t cols)))
  | inr (k, e) ↦
      let (i, ei, es) = find_column-some f t names 0 k d e in
      let same : k ≡ i = omega (arith, ei) in
      rw (h, e, same, es)
        (mark_columns-mask names (or_name f t) cols rest d hs
          ∙ ap (λ m. some (m, true)) (mask-ext _ _ names (or_assoc f t cols)))
]
