-- ===== src/Tests/Finders.antt =====
-- The file finder at concrete data.
use cse344_coursework.Base.{
  List, ◌≢◌, Bytes, Bytes, not, ◌&&◌, ◌≢◌, ℕ, ◌≡◌, refl, Bool, some, [], ◌∷◌, codes, arith, ◌==◌,
  pos,
}
use cse344_coursework.Finder.Regex.{is_valid_regex, is_valid_regex-Ends}
use cse344_coursework.Finder.Regex.Plus.{letters_then_run, is_valid_regex-run}
use cse344_coursework.Finder.Walk.{slash, closed, opened, Entries, end, entry}
use cse344_coursework.Finder.Entry.{Stat, consider, Meets, consider-Meets}
use cse344_coursework.Options.Finder.{Criteria, initial}

is_valid_regex-Ends_example :
    (b : Bool) × (is_valid_regex (codes "loost") (codes "lo+st") 1 ≡ some b)
is_valid_regex-Ends_example =
    is_valid_regex-Ends (codes "loost") (codes "lo+st") 1
      (
        (λ e. omega arith),
        ((λ e. omega arith), ((λ e. omega arith), ((λ e. omega arith), ((λ e. omega arith), tt)))),
      )
      (
        (λ e. omega arith),
        ((λ e. omega arith), ((λ e. omega arith), ((λ e. omega arith), ((λ e. omega arith), tt)))),
      )
      (λ e. omega arith)

is_valid_regex-run_example :
    is_valid_regex (codes "aBb") (codes "ab+") 0
    ≡ some (letters_then_run (codes "a") b'b' (codes "aBb"))
is_valid_regex-run_example =
    is_valid_regex-run (codes "a") b'b' (codes "aBb") 0
      ((λ e. omega arith), ((λ e. omega arith), ((λ e. omega arith), tt)))
      ((λ e. omega arith), ((λ e. omega arith), ((λ e. omega arith), tt))) ((λ e. omega arith), tt)
      ((λ e. omega arith), tt) (λ e. omega arith) (λ e. omega arith)

-- A file of 12 bytes with the permissions rw-r--r--.
abbrev file : Stat
file = record { st_mode = 33188; st_size = 12; st_nlink = 1 }

abbrev by_name_and_size : Criteria
by_name_and_size = record initial {
  fname = some (codes "lo+st");
  fsize = some (pos 12);
  fprmns = some (codes "rwxr-xr-x");
}

consider-Meets_example : Meets by_name_and_size file (codes "loost") 1
unfolding consider is_valid_regex
consider-Meets_example = consider-Meets by_name_and_size file (codes "loost") 1 refl

abbrev letter : ℕ → Bool
letter x = not (x == 0) && not (x == slash)

abbrev folder : Stat
folder = record { st_mode = 16877; st_size = 4096; st_nlink = 2 }

-- d/loost and d/sub/lost
abbrev entries : Entries
entries =
    entry (codes "loost") file (closed 13)
      (entry (codes "sub") folder (opened (entry (codes "lost") file (closed 13) end)) end)

abbrev two_paths : List (List Bytes)
two_paths = (codes "loost" ∷ []) ∷ (codes "sub" ∷ codes "lost" ∷ []) ∷ []
