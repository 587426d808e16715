-- ===== src/Finder/Selected.antt =====
-- The paths that the walk of HWs/HW1/main.c is to find, and the tree with all of them.
use cse344_coursework.Base.{
  ℕ, ◌≡◌, refl, ap, ◌∙◌, sym, Bool, true, false, Option, none, some, List, [], ◌∷◌, ◌++◌,
  if◌then◌else◌, Bytes, map, append_assoc,
}
use cse344_coursework.Options.Finder.{Criteria}
use cse344_coursework.Finder.Entry.{set_type, is_no_type, consider}
use cse344_coursework.Finder.Tree.{Tree, add}
use cse344_coursework.Finder.Walk.{
  access_denied, Dir, closed, opened, Entries, end, entry, no_stat, is_dots, is_dir, join,
}
use cse344_coursework.Finder.Paths.{IsName}

-- Readable: every entry has a name, a mode of a known type and a stat, and a directory that cannot be
-- opened is one without permission.
unfoldable mutual
  pub IsReadable : Dir → Type 0
  IsReadable (closed e) = e ≡ access_denied
  IsReadable (opened es) = AreReadable es

  pub AreReadable : Entries → Type 0
  AreReadable end = Unit
  AreReadable (no_stat name e es) = (is_dots name ≡ true) × AreReadable es
  AreReadable (entry name sb sub es) =
      IsName name × (is_no_type (set_type sb.st_mode) ≡ false) × IsReadable sub × AreReadable es

abbrev pub is_some_true : Option Bool → Bool
is_some_true none = false
is_some_true (some b) = b

abbrev pub if_found : Bool → List Bytes → List (List Bytes) → List (List Bytes)
if_found true path paths = path ∷ paths
if_found false path paths = paths

-- The paths below a directory of the entries that meet the criteria, a directory's before those
-- inside it.
module _ (criteria : Criteria) (junk : Bytes → ℕ) where
  unfoldable mutual
    pub selected : Dir → (path : Bytes) → List (List Bytes)
    selected (closed e) path = []
    selected (opened es) path = selected_entries es path

    pub selected_entries : Entries → (path : Bytes) → List (List Bytes)
    selected_entries end path = []
    selected_entries (no_stat name e es) path = selected_entries es path
    selected_entries (entry name sb sub es) path =
        let inside = map (λ p. name ∷ p) (selected sub (join path name)) in
        let rest = selected_entries es path in
        let found = is_some_true (consider criteria sb name (junk (join path name))) in
        if is_dots name
        then rest
        else if_found found (name ∷ []) (if is_dir (set_type sb.st_mode) then inside else [])
          ++ rest

-- `add`, one path after the other.
unfoldable pub add_all : Tree → List (List Bytes) → Tree
add_all t [] = t
add_all t (p ∷ ps) = add_all (add t p) ps

pub add_all-append :
    (t : Tree) (ps qs : List (List Bytes)) → add_all t (ps ++ qs) ≡ add_all (add_all t ps) qs
unfolding add_all
add_all-append t [] qs = refl
add_all-append t (p ∷ ps) qs = add_all-append (add t p) ps qs

abbrev pub below : List Bytes → List (List Bytes) → List (List Bytes)
below base ps = map (λ p. base ++ p) ps

pub below-append :
    (base : List Bytes) (ps qs : List (List Bytes))
    → below base (ps ++ qs) ≡ below base ps ++ below base qs
below-append base [] qs = refl
below-append base (p ∷ ps) qs = ap (λ t. (base ++ p) ∷ t) (below-append base ps qs)

pub below-name :
    (base : List Bytes) (name : Bytes) (ps : List (List Bytes))
    → below (base ++ (name ∷ [])) ps ≡ below base (map (λ p. name ∷ p) ps)
below-name base name [] = refl
below-name base name (p ∷ ps) =
    ap (λ t. t ∷ below (base ++ (name ∷ [])) ps) (append_assoc base (name ∷ []) p)
    ∙ ap (λ t. (base ++ (name ∷ p)) ∷ t) (below-name base name ps)

below-if_found :
    (b : Bool) (base : List Bytes) (p : List Bytes) (inside rest : List (List Bytes))
    → below base (if_found b p inside ++ rest)
      ≡ below base (if_found b p []) ++ (below base inside ++ below base rest)
below-if_found true base p inside rest = ap (λ t. (base ++ p) ∷ t) (below-append base inside rest)
below-if_found false base p inside rest = below-append base inside rest

pub add_all-two :
    (b : Bool) (base : List Bytes) (p : List Bytes) (inside rest : List (List Bytes)) (root : Tree)
    → add_all
        (add_all (add_all root (below base (if_found b p []))) (below base inside))
        (below base rest)
      ≡ add_all root (below base (if_found b p inside ++ rest))
add_all-two b base p inside rest root = sym (
    ap (add_all root) (below-if_found b base p inside rest)
    ∙ add_all-append root (below base (if_found b p [])) (below base inside ++ below base rest)
    ∙ add_all-append (add_all root (below base (if_found b p []))) (below base inside)
        (below base rest))
