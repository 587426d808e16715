-- ===== src/Finder/Walk.antt =====
-- The search of HWs/HW1/main.c: traverse_filesystem on a tree of directories, and main. What
-- opendir, readdir and lstat return is the tree; allocation succeeds, and no SIGINT comes. `none` is
-- undefined behaviour, or a match that does not end.
use cse344_coursework.Base.{
  ℕ, zero, suc, Bool, true, false, not, ◌&&◌, ◌||◌, Option, none, some, List, [], ◌∷◌, ◌++◌, ◌==◌,
  if◌then◌else◌, ◌>>=◌, Bytes, codes, str_eq, length,
}
use cse344_coursework.Tokens.{split}
use cse344_coursework.Options.Finder.{Criteria}
use cse344_coursework.Finder.Entry.{Stat, FileType, set_type, is_no_type, dir_t, consider}
use cse344_coursework.Finder.Tree.{Tree, leaf, node, add, traverse}

abbrev pub slash : ℕ
slash = b'/'

-- `EACCES`
abbrev pub access_denied : ℕ
access_denied = 13

-- A directory, or the error with which opendir fails; its entries as readdir returns them, each with
-- what lstat tells, or its error, and what is found there if it is a directory.
mutual
  pub data Dir : Type 0 where
    closed : (errno : ℕ) → Dir
    opened : Entries → Dir

  pub data Entries : Type 0 where
    end : Entries
    entry : (name : Bytes) → Stat → Dir → Entries → Entries
    no_stat : (name : Bytes) → (errno : ℕ) → Entries → Entries

-- The return value (-1 is `failed`), errno and the tree behind the root pointer.
pub record Walk : Type 0 where
  pub failed : Bool
  pub errno : ℕ
  pub root : Tree

abbrev pub is_dots : Bytes → Bool
is_dots name = str_eq name (codes ".") || str_eq name (codes "..")

abbrev pub is_dir : FileType → Bool
is_dir dir_t = true
is_dir _ = false

-- `strcat` of the directory's name, a slash and the entry's name.
abbrev pub join : Bytes → Bytes → Bytes
join path name = path ++ (slash ∷ name)

-- `path_arr == NULL` is `none`.
unfoldable pub put_parts : Tree → List Bytes → Option Tree
put_parts root [] = none
put_parts root (p ∷ ps) = some (add root (p ∷ ps))

-- The tree with the path of an entry that is found; `none` inside if the path has no part.
unfoldable pub put_path : (found : Bool) → (path : Bytes) → Tree → Option (Option Tree)
unfolding put_parts
put_path false path root = some (some root)
put_path true path root = do path_arr ← split (some path) slash; some (put_parts root path_arr)

-- Behind the loop: an error other than EACCES since the start.
unfoldable pub check_errno : (save_errno : ℕ) → Walk → Walk
check_errno save_errno w =
    if w.failed
    then w
    else if not (save_errno == w.errno) && not (w.errno == access_denied)
    then record w { failed = true }
    else w

abbrev pub fails : (errno : ℕ) → Tree → Walk
fails errno root = record { failed = true; errno = errno; root = root }

-- `junk` is what the uninitialised `prev` of is_valid_regex holds for each path. A directory inside
-- that cannot be read does not end the walk: the return value is not looked at.
module _ (criteria : Criteria) (junk : Bytes → ℕ) where
  unfoldable mutual
    pub traverse_filesystem : Dir → (path : Bytes) → (errno : ℕ) → Tree → Option Walk
    traverse_filesystem (closed e) path errno root = some (fails e root)
    traverse_filesystem (opened es) path errno root = do
      w ← traverse_entries es path errno root
      some (check_errno errno w)

    pub traverse_entries : Entries → (path : Bytes) → (errno : ℕ) → Tree → Option Walk
    traverse_entries end path errno root =
        some (record { failed = false; errno = errno; root = root })
    traverse_entries (no_stat name e es) path errno root =
        let rest = traverse_entries es path errno root in
        if is_dots name then rest else some (fails e root)
    traverse_entries (entry name sb sub es) path errno root =
        let type = set_type sb.st_mode in
        let skipped = traverse_entries es path errno root in
        let inside = traverse_filesystem sub (join path name) in
        let behind = traverse_entries es path in
        if is_dots name then skipped else if is_no_type type then some (fails errno root) else (do
          found ← consider criteria sb name (junk (join path name))
          added ← put_path found (join path name) root
          elim added [
            | none ↦ some (fails errno root)
            | some root' ↦
                if is_dir type
                then (do w ← inside errno root'; behind w.errno w.root)
                else behind errno root'
          ])

-- `for (i=0; i<initSize; ++i) t = t->child;`
unfoldable pub descend : ℕ → Tree → Option Tree
descend zero t = some t
descend (suc n) leaf = none
descend (suc n) (node f child next) = descend n child

-- What main prints behind the walk.
unfoldable pub print_found : (spath : Bytes) → (init_size : ℕ) → Tree → Option (List Bytes)
unfolding descend
print_found spath init_size leaf = some (codes "No file found." ∷ [])
print_found spath init_size (node f child next) = do
  t ← descend init_size (node f child next)
  some (spath ∷ traverse t 1)

-- `main` with accepted options; `none` inside is the exit with -1.
unfoldable pub search :
    (criteria : Criteria)
    → (junk : Bytes → ℕ) → (spath : Bytes) → Dir
    → (errno : ℕ) → Option (Option (List Bytes))
unfolding traverse_filesystem print_found
search criteria junk spath dir errno = do
  init_path ← split (some spath) slash
  w ← traverse_filesystem criteria junk dir spath errno leaf
  if w.failed
      then some none
      else (do lines ← print_found spath (length init_path) w.root; some (some lines))
