-- ===== src/Finder/Paths.antt =====
-- The paths that the walk of HWs/HW1/main.c makes, and their parts.
use cse344_coursework.Base.{
  ◌≡◌, inl, inr, refl, ap, ◌∙◌, sym, All, true, false, some, Bool-cases, List, [], ◌∷◌, ◌++◌, ◌==◌,
  ◌>>=◌, Bytes, append_assoc, append-nil, arith,
}
use cse344_coursework.Tokens.Runs.{runs, close, split-runs}
use cse344_coursework.Tokens.Join.{IsWord}
use cse344_coursework.Finder.Regex.{IsCString}
use cse344_coursework.Finder.Tree.{Tree, add}
use cse344_coursework.Finder.Walk.{slash, join, put_parts, put_path}

-- The parts of a path.
abbrev pub parts : Bytes → List Bytes
parts path = runs (λ x. x == slash) [] path

close-append : (cur : Bytes) (ws vs : List Bytes) → close cur ws ++ vs ≡ close cur (ws ++ vs)
close-append [] ws vs = refl
close-append (x ∷ cur) ws vs = refl

runs-join :
    (s w cur : Bytes)
    → runs (λ x. x == slash) cur (s ++ (slash ∷ w)) ≡ runs (λ x. x == slash) cur s ++ parts w
unfolding runs
runs-join [] w cur = sym (close-append cur [] (parts w))
runs-join (x ∷ s) w cur = elim (Bool-cases (x == slash)) [
  | inl e ↦ rw (e, runs-join s w []) (sym (close-append cur (parts s) (parts w)))
  | inr e ↦ rw (e, runs-join s w (cur ++ (x ∷ [])))
]

-- An entry's name.
pub record IsName (name : Bytes) : Type 0 where
  pub word : IsWord (λ x. x == slash) name
  pub no_nul : IsCString name

runs-plain_end :
    (w cur : Bytes)
    → All (λ x. (x == slash) ≡ false) w
    → runs (λ x. x == slash) cur w ≡ close (cur ++ w) []
unfolding runs
runs-plain_end [] cur h = rw append-nil
runs-plain_end (x ∷ w) cur (h, hs) = rw h (runs-plain_end w (cur ++ (x ∷ [])) hs ∙ rw append_assoc)

parts-name : (name : Bytes) → IsName name → parts name ≡ name ∷ []
parts-name [] is = absurd (is.word.ne_nil refl)
parts-name (x ∷ name) is = runs-plain_end (x ∷ name) [] is.word.plain

pub parts-join :
    (path name : Bytes) → IsName name → parts (join path name) ≡ parts path ++ (name ∷ [])
parts-join path name is = runs-join path name [] ∙ ap (λ t. parts path ++ t) (parts-name name is)

pub join-IsCString :
    (path name : Bytes) → IsCString path → IsCString name → IsCString (join path name)
join-IsCString [] name h k = ((λ e. omega arith), k)
join-IsCString (x ∷ path) name (h, hs) k = (h, join-IsCString path name hs k)

put_parts-cons :
    (root : Tree) (base : List Bytes) (name : Bytes)
    → put_parts root (base ++ (name ∷ [])) ≡ some (add root (base ++ (name ∷ [])))
unfolding put_parts
put_parts-cons root [] name = refl
put_parts-cons root (b ∷ base) name = refl

pub put_path-add :
    (path name : Bytes) (root : Tree)
    → IsCString path
    → IsName name
    → put_path true (join path name) root ≡ some (some (add root (parts path ++ (name ∷ []))))
unfolding put_path
put_path-add path name root h is =
    ap (λ s. s >>= λ ps. some (put_parts root ps))
      (split-runs (join path name) slash (join-IsCString path name h is.no_nul)
        ∙ ap some (parts-join path name is))
    ∙ ap some (put_parts-cons root (parts path) name)
