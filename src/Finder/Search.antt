-- ===== src/Finder/Search.antt =====
-- What the search of HWs/HW1/main.c prints: the tree below the directory that was searched.
use cse344_coursework.Base.{
  ◌≡◌, ◌≢◌, ◌∙◌, Bool, true, false, ◌||◌, List, [], ◌∷◌, Bytes, codes, arith,
}
use cse344_coursework.Finder.Tree.{Tree, leaf, node, add, has, has-add, is_prefix, traverse}
use cse344_coursework.Finder.Selected.{add_all}

-- A tree under a path of single nodes.
unfoldable pub chain : List Bytes → Tree → Tree
chain [] t = t
chain (b ∷ base) t = node b (chain base t) leaf

abbrev is_leaf : Tree → Bool
is_leaf leaf = true
is_leaf (node f child next) = false

-- A path with a part.
abbrev IsStep : List Bytes → Type 0
IsStep p = p ≢ []

-- What is printed for the paths that were found.
unfoldable pub shown : (spath : Bytes) → List (List Bytes) → List Bytes
shown spath [] = codes "No file found." ∷ []
shown spath (p ∷ ps) = spath ∷ traverse (add_all leaf (p ∷ ps)) 1

-- The tree that is built from paths has exactly these and their beginnings.
abbrev pub any_prefix : List Bytes → List (List Bytes) → Bool
any_prefix q [] = false
any_prefix q (p ∷ ps) = is_prefix q p || any_prefix q ps

pub has-add_all :
    (t : Tree) (ps : List (List Bytes)) (q : List Bytes)
    → has (add_all t ps) q ≡ (has t q || any_prefix q ps)
unfolding add_all
has-add_all t [] q = ground arith
has-add_all t (p ∷ ps) q = has-add_all (add t p) ps q ∙ ground (arith, has-add t p q)
