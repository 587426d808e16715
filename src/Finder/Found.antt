-- ===== src/Finder/Found.antt =====
-- The walk of HWs/HW1/main.c finds the paths of the entries that meet the criteria.
use cse344_coursework.Base.{
  ℕ, ◌≡◌, ◌≢◌, ◌⊎◌, inl, inr, refl, ap, ◌∙◌, Bool, true, false, Option, some, Bool-cases, List, [],
  ◌∷◌, Bytes, map, arith,
}
use cse344_coursework.Options.Finder.{Criteria}
use cse344_coursework.Finder.Regex.{IsCString}
use cse344_coursework.Finder.Entry.{Stat, set_type, is_no_type, consider, consider-some}
use cse344_coursework.Finder.Tree.{Tree}
use cse344_coursework.Finder.Walk.{
  access_denied, Dir, closed, opened, Entries, end, entry, no_stat, Walk, is_dots, is_dir, join,
  put_path, check_errno, fails, traverse_filesystem, traverse_entries,
}
use cse344_coursework.Finder.Paths.{parts, IsName, parts-join, join-IsCString, put_path-add}
use cse344_coursework.Finder.Selected.{
  IsReadable, AreReadable, selected, selected_entries, if_found, add_all, below, below-name,
  add_all-two,
}

pub check_errno-kept :
    (save : ℕ) (w : Walk)
    → w.failed ≡ false
    → (w.errno ≡ save) ⊎ (w.errno ≡ access_denied)
    → check_errno save w ≡ w
unfolding check_errno
check_errno-kept save w f e = ground arith

-- The result of a walk that adds these paths; errno is what it was or EACCES.
pub record Adds (failed : Bool) (root : Tree) (errno : ℕ) (paths : List (List Bytes))
    (o : Option Walk) : Type 0 where
  pub walk : Walk
  pub result : o ≡ some walk
  pub outcome : walk.failed ≡ failed
  pub tree : walk.root ≡ add_all root paths
  pub errors : (walk.errno ≡ errno) ⊎ (walk.errno ≡ access_denied)

put_path-if_found :
    (found : Bool) (path name : Bytes) (root : Tree)
    → IsCString path
    → IsName name
    → put_path found (join path name) root
      ≡ some (some (add_all root (below (parts path) (if_found found (name ∷ []) []))))
unfolding put_path add_all
put_path-if_found false path name root h is = refl
put_path-if_found true path name root h is = put_path-add path name root h is

errors_trans :
    (e1 e2 e3 : ℕ)
    → (e2 ≡ e1) ⊎ (e2 ≡ access_denied)
    → (e3 ≡ e2) ⊎ (e3 ≡ access_denied)
    → (e3 ≡ e1) ⊎ (e3 ≡ access_denied)
errors_trans e1 e2 e3 h k = ground arith

module _ (criteria : Criteria) (junk : Bytes → ℕ) (name : Bytes) (sb : Stat) (sub : Dir)
    (es : Entries) (path : Bytes) (errno : ℕ) (root : Tree) (b : Bool) (dots : is_dots name ≡ false)
    (known : is_no_type (set_type sb.st_mode) ≡ false)
    (found : consider criteria sb name (junk (join path name)) ≡ some b) (is : IsName name)
    (h : IsCString path) where
  abbrev here : Tree
  here = add_all root (below (parts path) (if_found b (name ∷ []) []))

  -- An entry that is a directory: the walk inside it, and the walk behind it.
  pub entry-dir :
      {f : Bool}
      → is_dir (set_type sb.st_mode) ≡ true
      → (a : Adds f here errno
          (below (parts (join path name)) (selected criteria junk sub (join path name)))
          (traverse_filesystem criteria junk sub (join path name) errno here))
      → Adds false a.walk.root a.walk.errno
          (below (parts path) (selected_entries criteria junk es path))
          (traverse_entries criteria junk es path a.walk.errno a.walk.root)
      → Adds false root errno
          (below (parts path) (selected_entries criteria junk (entry name sb sub es) path))
          (traverse_entries criteria junk (entry name sb sub es) path errno root)
  unfolding traverse_entries selected_entries
  entry-dir d a r = record {
    walk = r.walk;
    result = rw (dots, known, found, put_path-if_found b path name root h is, d, a.result) r.result;
    outcome = r.outcome;
    tree =
        let inside = selected criteria junk sub (join path name) in
        let rest = selected_entries criteria junk es path in
        let paths : below (parts (join path name)) inside
            ≡ below (parts path) (map (λ p. name ∷ p) inside) =
          ap (λ base. below base inside) (parts-join path name is)
          ∙ below-name (parts path) name inside in
        rw (dots, found, d)
          (r.tree
            ∙ ap (λ t. add_all t (below (parts path) rest)) (a.tree ∙ ap (add_all here) paths)
            ∙ add_all-two b (parts path) (name ∷ []) (map (λ p. name ∷ p) inside) rest root);
    errors = errors_trans errno a.walk.errno r.walk.errno a.errors r.errors;
  }

  pub entry-plain :
      is_dir (set_type sb.st_mode) ≡ false
      → Adds false here errno
          (below (parts path) (selected_entries criteria junk es path))
          (traverse_entries criteria junk es path errno here)
      → Adds false root errno
          (below (parts path) (selected_entries criteria junk (entry name sb sub es) path))
          (traverse_entries criteria junk (entry name sb sub es) path errno root)
  unfolding traverse_entries selected_entries add_all
  entry-plain d r = record {
    walk = r.walk;
    result = rw (dots, known, found, put_path-if_found b path name root h is, d) r.result;
    outcome = r.outcome;
    tree =
        rw (dots, found, d)
          (r.tree
            ∙ add_all-two b (parts path) (name ∷ []) [] (selected_entries criteria junk es path)
                root);
    errors = r.errors;
  }

module _ (criteria : Criteria) (junk : Bytes → ℕ)
    (regex_ok : (f : Bytes) → criteria.fname ≡ some f → IsCString f)
    (junk_ok : (path : Bytes) → junk path ≢ 0) where
  mutual
    unfolding traverse_filesystem traverse_entries selected selected_entries IsReadable AreReadable
        add_all

    traverse_filesystem-Adds :
        (dir : Dir) (path : Bytes) (errno : ℕ) (root : Tree)
        → IsReadable dir
        → IsCString path
        → (f : Bool) × Adds f root errno
            (below (parts path) (selected criteria junk dir path))
            (traverse_filesystem criteria junk dir path errno root)
    traverse_filesystem-Adds (closed e) path errno root ok h = (
      true,
      record { walk = fails e root; result = refl; outcome = refl; tree = refl; errors = inr ok },
    )
    traverse_filesystem-Adds (opened es) path errno root ok h =
        let a = traverse_entries-Adds es path errno root ok h in
        (
          false,
          record {
            walk = a.walk;
            result = rw (a.result, check_errno-kept errno a.walk a.outcome a.errors);
            outcome = a.outcome;
            tree = a.tree;
            errors = a.errors;
          },
        )

    pub traverse_entries-Adds :
        (es : Entries) (path : Bytes) (errno : ℕ) (root : Tree)
        → AreReadable es
        → IsCString path
        → Adds false root errno
            (below (parts path) (selected_entries criteria junk es path))
            (traverse_entries criteria junk es path errno root)
    traverse_entries-Adds end path errno root ok h = record {
      walk = record { failed = false; errno = errno; root = root };
      result = refl;
      outcome = refl;
      tree = refl;
      errors = inl refl;
    }
    traverse_entries-Adds (no_stat name e es) path errno root (dots, ok) h =
        let a = traverse_entries-Adds es path errno root ok h in
        record {
          walk = a.walk;
          result = rw dots a.result;
          outcome = a.outcome;
          tree = a.tree;
          errors = a.errors;
        }
    traverse_entries-Adds (entry name sb sub es) path errno root (is, known, ok_sub, ok) h =
        let (b, found) =
          consider-some criteria sb name (junk (join path name)) is.no_nul regex_ok
            (junk_ok (join path name)) in
        let root1 = add_all root (below (parts path) (if_found b (name ∷ []) [])) in
        let (f, a) =
          traverse_filesystem-Adds sub (join path name) errno root1 ok_sub
            (join-IsCString path name h is.no_nul) in
        elim (Bool-cases (is_dots name)) [
          | inl dots ↦
              let r = traverse_entries-Adds es path errno root ok h in
              record {
                walk = r.walk;
                result = rw dots r.result;
                outcome = r.outcome;
                tree = rw dots r.tree;
                errors = r.errors;
              }
          | inr dots ↦ elim (Bool-cases (is_dir (set_type sb.st_mode))) [
            | inl d ↦
                entry-dir criteria junk name sb sub es path errno root b dots known found is h d a
                  (traverse_entries-Adds es path a.walk.errno a.walk.root ok h)
            | inr d ↦
                entry-plain criteria junk name sb sub es path errno root b dots known found is h d
                  (traverse_entries-Adds es path errno root1 ok h)
          ]
        ]
