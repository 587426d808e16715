-- ===== src/Options/Finder.antt =====
-- HWs/HW1/getopt.c
use cse344_coursework.Base.{
  [], ◌∷◌, ℤ, pos, negsuc, ◌≡◌, ◌≤ℤ◌, ltb_ℤ, ◌≢◌, Bool, true, false, not, ◌&&◌, ◌||◌, Option, none,
  some, List, ◌==◌, if◌then◌else◌, ◌>>=◌, bind-eq-some, Bytes, arith,
}
use cse344_coursework.Options.{Opt, is_not_a_number, each_opt}

-- The criteria. A criterion that was given has its flag set in the source; here it is not `none`.
pub record Criteria : Type 0 where
  pub fname : Option Bytes
  pub fsize : Option ℤ
  pub ftype : Option Bytes
  pub fprmns : Option Bytes
  pub fnlinks : Option ℤ
  pub spath : Option Bytes

abbrev pub initial : Criteria
initial = record {
  fname = none;
  fsize = none;
  ftype = none;
  fprmns = none;
  fnlinks = none;
  spath = none;
}

abbrev pub is_zero : ℤ → Bool
is_zero (pos n) = n == 0
is_zero (negsuc n) = false

-- `while (!fsize && *str)`: the digits are looked at only while the value is 0.
does_contain_char : ℤ → Bytes → Bool
does_contain_char fsize str = if is_zero fsize then is_not_a_number str else false

-- One case of the switch.
take_opt : (Bytes → ℤ) → Criteria → Opt → Option Criteria
unfolding does_contain_char
take_opt atoi s o =
    if o.letter == b'f'
    then some (record s { fname = some o.optarg })
    else if o.letter == b'b'
    then (if does_contain_char (atoi o.optarg) o.optarg
        then none
        else some (record s { fsize = some (atoi o.optarg) }))
    else if o.letter == b't'
    then some (record s { ftype = some o.optarg })
    else if o.letter == b'p'
    then some (record s { fprmns = some o.optarg })
    else if o.letter == b'l'
    then some (record s { fnlinks = some (atoi o.optarg) })
    else if o.letter == b'w'
    then some (record s { spath = some o.optarg })
    else none

is_valid_filename : Bytes → Bool
is_valid_filename [] = true
is_valid_filename (c ∷ fn) = not (c == b'+')

is_valid_filesize : ℤ → Bool
is_valid_filesize size = not (ltb_ℤ size (pos 0))

is_valid_filetype : Bytes → Bool
is_valid_filetype (c ∷ []) =
    c == b'd' || c == b's' || c == b'b' || c == b'c' || c == b'f' || c == b'p' || c == b'l'
is_valid_filetype _ = false

is_valid_noflinks : ℤ → Bool
is_valid_noflinks nlink = not (ltb_ℤ nlink (pos 1))

abbrev is_given {ℓ} : {A : Type ℓ} → Option A → Bool
is_given none = false
is_given (some a) = true

abbrev passes {ℓ} : {A : Type ℓ} → (A → Bool) → Option A → Bool
passes p none = true
passes p (some a) = p a

-- The checks behind the loop; `extra` is `optind < argc`. Every error returns -1.
finish : (extra : Bool) → Criteria → Option Criteria
finish extra s =
    if is_given s.spath
      && (is_given s.fname
          || is_given s.fsize
          || is_given s.ftype
          || is_given s.fprmns
          || is_given s.fnlinks)
      && passes is_valid_filename s.fname
      && passes is_valid_filesize s.fsize
      && passes is_valid_filetype s.ftype
      && passes is_valid_noflinks s.fnlinks
      && not extra
    then some s
    else none

unfoldable pub set_opts_and_args : (Bytes → ℤ) → (extra : Bool) → List Opt → Option Criteria
unfolding take_opt finish is_valid_filename is_valid_filesize is_valid_filetype is_valid_noflinks
set_opts_and_args atoi extra opts = each_opt (take_opt atoi) initial opts >>= finish extra

-- What the search starts with.
pub record Searchable (extra : Bool) (s : Criteria) : Type 0 where
  pub path : s.spath ≢ none
  pub criterion : ¬ (
      (s.fname ≡ none)
      × (s.fsize ≡ none)
      × (s.ftype ≡ none)
      × (s.fprmns ≡ none)
      × (s.fnlinks ≡ none))
  pub size : (n : ℤ) → s.fsize ≡ some n → pos 0 ≤ℤ n
  pub links : (n : ℤ) → s.fnlinks ≡ some n → pos 1 ≤ℤ n
  pub name : (rest : Bytes) → s.fname ≢ some (b'+' ∷ rest)
  pub no_extra : extra ≡ false

finish-Searchable : (extra : Bool) (t s : Criteria) → finish extra t ≡ some s → Searchable extra s
unfolding finish is_valid_filename is_valid_filesize is_valid_noflinks
finish-Searchable extra t s e = ground arith

-- If the search does not end on its command line, the path is given with at least one criterion, the
-- size is not negative, the number of links is positive, the file name does not begin with '+', and
-- nothing is left behind the options.
pub set_opts_and_args-Searchable :
    (atoi : Bytes → ℤ) (extra : Bool) (opts : List Opt) (s : Criteria)
    → set_opts_and_args atoi extra opts ≡ some s
    → Searchable extra s
unfolding set_opts_and_args
set_opts_and_args-Searchable atoi extra opts s e =
    let (t, read, done) = bind-eq-some (each_opt (take_opt atoi) initial opts) (finish extra) e in
    finish-Searchable extra t s done
