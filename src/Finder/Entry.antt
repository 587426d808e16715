-- ===== src/Finder/Entry.antt =====
-- One entry of a directory against the criteria: set_perm, set_type and validate of HWs/HW1/main.c.
use cse344_coursework.Base.{
  ℕ, ◌-◌, ◌/◌, ◌%◌, ◌≡◌, ◌≢◌, Bool, true, false, ◌&&◌, Option, none, some, [], ◌∷◌, ltb, ◌==◌,
  if◌then◌else◌, Bytes, codes, str_eq, str_eq_iff, ℤ, pos, negsuc, arith, ◌>>=◌, Bool-cases, inl,
  inr, refl,
}
use cse344_coursework.Options.Finder.{Criteria}
use cse344_coursework.Finder.Regex.{is_valid_regex, IsCString, is_valid_regex-Ends}

pub data FileType : Type 0 where
  no_type dir_t socket blck_dev char_dev regfile pipe symlink : FileType

-- `ftable`
pub ftable : FileType → Bytes
ftable no_type = codes "-"
ftable dir_t = codes "d"
ftable socket = codes "s"
ftable blck_dev = codes "b"
ftable char_dev = codes "c"
ftable regfile = codes "f"
ftable pipe = codes "p"
ftable symlink = codes "l"

-- `st_mode & S_IFMT`, in units of 4096.
unfoldable pub set_type : (st_mode : ℕ) → FileType
set_type st_mode =
    let fmt = st_mode / 4096 % 16 in
    if fmt == 12
    then socket
    else if fmt == 10
    then symlink
    else if fmt == 8
    then regfile
    else if fmt == 6
    then blck_dev
    else if fmt == 4
    then dir_t
    else if fmt == 2
    then char_dev
    else if fmt == 1
    then pipe
    else no_type

-- `st_mode & bit ? c : '-'`, for a bit that is a power of two.
bit_char : (st_mode bit c : ℕ) → ℕ
bit_char st_mode bit c = if st_mode / bit % 2 == 1 then c else b'-'

pub set_perm : (st_mode : ℕ) → Bytes
unfolding bit_char
set_perm st_mode =
    bit_char st_mode 256 b'r'
    ∷ bit_char st_mode 128 b'w'
    ∷ bit_char st_mode 64 b'x'
    ∷ bit_char st_mode 32 b'r'
    ∷ bit_char st_mode 16 b'w'
    ∷ bit_char st_mode 8 b'x'
    ∷ bit_char st_mode 4 b'r'
    ∷ bit_char st_mode 2 b'w'
    ∷ bit_char st_mode 1 b'x'
    ∷ []

-- What `lstat` tells of an entry, as far as the search uses it.
pub record Stat : Type 0 where
  pub st_mode : ℕ
  pub st_size : ℕ
  pub st_nlink : ℕ

-- `(int)`, 32 bits.
pub int_of : ℕ → ℤ
int_of n = let w = n % 4294967296 in if ltb w 2147483648 then pos w else negsuc (4294967295 - w)

same_int : ℤ → ℤ → Bool
same_int (pos a) (pos b) = a == b
same_int (negsuc a) (negsuc b) = a == b
same_int _ _ = false

-- A criterion that was not given holds.
abbrev checks {ℓ} : {A : Type ℓ} → Option A → (A → Option Bool) → Option Bool
checks none p = some true
checks (some a) p = p a

abbrev name_test : (pname : Bytes) → (junk : ℕ) → (fname : Bytes) → Option Bool
name_test pname junk fname = is_valid_regex pname fname junk

abbrev int_test : (n : ℕ) → (wanted : ℤ) → Option Bool
int_test n wanted = some (same_int (int_of n) wanted)

abbrev type_test : FileType → (ftype : Bytes) → Option Bool
type_test type ftype = some (str_eq ftype (ftable type))

-- `strcmp(fprmns, cur->perm) ? true : false`
abbrev perm_test : (perm : Bytes) → (fprmns : Bytes) → Option Bool
perm_test perm fprmns = some (if str_eq fprmns perm then false else true)

-- `none` is a file name's match that does not end.
pub validate :
    Criteria → FileType → (perm : Bytes) → Stat → (pname : Bytes) → (junk : ℕ) → Option Bool
unfolding same_int int_of ftable
validate c type perm sb pname junk = checks c.fname (name_test pname junk) >>= λ name.
    checks c.fsize (int_test sb.st_size) >>= λ size. checks c.ftype (type_test type) >>= λ of_type.
    checks c.fprmns (perm_test perm) >>= λ permitted.
    checks c.fnlinks (int_test sb.st_nlink) >>= λ nlink.
    some (name && size && of_type && permitted && nlink)

abbrev pub is_no_type : FileType → Bool
is_no_type no_type = true
is_no_type _ = false

-- The loop's body on one entry: `set_type`, `set_perm`, `validate`. A mode of no known type ends the
-- walk, and nothing is found.
unfoldable pub consider : Criteria → Stat → (pname : Bytes) → (junk : ℕ) → Option Bool
unfolding validate set_type set_perm
consider c sb pname junk =
    let type = set_type sb.st_mode in
    let found = validate c type (set_perm sb.st_mode) sb pname junk in
    if is_no_type type then some false else found

found-valid :
    (b : Bool) (o : Option Bool) → (if b then some false else o) ≡ some true → o ≡ some true
found-valid true o h = cc
found-valid false o h = h

five :
    (o1 o2 o3 o4 o5 : Option Bool)
    → (o1 >>= λ a. o2 >>= λ b. o3 >>= λ c. o4 >>= λ d. o5 >>= λ e. some (a && b && c && d && e))
      ≡ some true
    → (o1 ≡ some true) × (o2 ≡ some true) × (o3 ≡ some true) × (o4 ≡ some true) × (o5 ≡ some true)
five o1 o2 o3 o4 o5 h = ground arith

-- What an entry that is found satisfies.
pub record Meets (c : Criteria) (sb : Stat) (pname : Bytes) (junk : ℕ) : Type 0 where
  pub name : (f : Bytes) → c.fname ≡ some f → is_valid_regex pname f junk ≡ some true
  pub size : (n : ℤ) → c.fsize ≡ some n → int_of sb.st_size ≡ n
  pub of_type : (t : Bytes) → c.ftype ≡ some t → t ≡ ftable (set_type sb.st_mode)
  pub permitted : (p : Bytes) → c.fprmns ≡ some p → p ≢ set_perm sb.st_mode
  pub nlink : (n : ℤ) → c.fnlinks ≡ some n → int_of sb.st_nlink ≡ n

same_int_eq : (a b : ℤ) → some (same_int a b) ≡ some true → a ≡ b
unfolding same_int
same_int_eq (pos a) (pos b) h = ground arith
same_int_eq (negsuc a) (negsuc b) h = ground arith
same_int_eq (pos a) (negsuc b) h = ground arith
same_int_eq (negsuc a) (pos b) h = ground arith

equal : (p q : Bytes) → some (str_eq p q) ≡ some true → p ≡ q
equal p q h = ground (arith, h, str_eq_iff p q)

differs : (p q : Bytes) → some (if str_eq p q then false else true) ≡ some true → p ≢ q
differs p q h e = ground (arith, h, str_eq_iff p q, e)

given {ℓ} :
    {A : Type ℓ} {o : Option A} (p : A → Option Bool) (a : A)
    → o ≡ some a
    → checks o p ≡ some true
    → p a ≡ some true
given {o = none} p a e h = cc
given {o = some b} p a e h = cc

-- An entry that is found meets every criterion that was given: its name matches, its size as an int
-- and its type are those asked for, and so is its number of links. Its permissions are not the ones
-- asked for, since the source takes the outcome of `strcmp` for equality there.
pub consider-Meets :
    (c : Criteria) (sb : Stat) (pname : Bytes) (junk : ℕ)
    → consider c sb pname junk ≡ some true
    → Meets c sb pname junk
unfolding consider validate
consider-Meets c sb pname junk h =
    let perm = set_perm sb.st_mode in
    let type = set_type sb.st_mode in
    let (h1, h2, h3, h4, h5) =
      five (checks c.fname (name_test pname junk)) (checks c.fsize (int_test sb.st_size))
        (checks c.ftype (type_test type)) (checks c.fprmns (perm_test perm))
        (checks c.fnlinks (int_test sb.st_nlink)) (found-valid (is_no_type type) _ h) in
    record {
      name = λ f e. given (name_test pname junk) f e h1;
      size = λ n e. same_int_eq _ n (given (int_test sb.st_size) n e h2);
      of_type = λ t e. equal t _ (given (type_test type) t e h3);
      permitted = λ p e. differs p _ (given (perm_test perm) p e h4);
      nlink = λ n e. same_int_eq _ n (given (int_test sb.st_nlink) n e h5);
    }

checks-some {ℓ} :
    {A : Type ℓ} (o : Option A) (p : A → Option Bool)
    → ((a : A) → o ≡ some a → (b : Bool) × (p a ≡ some b))
    → (b : Bool) × (checks o p ≡ some b)
checks-some none p h = (true, refl)
checks-some (some a) p h = h a refl

-- The test of an entry ends, for a name and a pattern that are C strings.
pub consider-some :
    (c : Criteria) (sb : Stat) (pname : Bytes) (junk : ℕ)
    → IsCString pname
    → ((f : Bytes) → c.fname ≡ some f → IsCString f)
    → junk ≢ 0
    → (b : Bool) × (consider c sb pname junk ≡ some b)
unfolding consider validate
consider-some c sb pname junk hn hf hj =
    let type = set_type sb.st_mode in
    let (b1, e1) =
      checks-some c.fname (name_test pname junk)
        (λ f e. is_valid_regex-Ends pname f junk hn (hf f e) hj) in
    let (b2, e2) = checks-some c.fsize (int_test sb.st_size) (λ n e. (_, refl)) in
    let (b3, e3) = checks-some c.ftype (type_test type) (λ n e. (_, refl)) in
    let (b4, e4) = checks-some c.fprmns (perm_test (set_perm sb.st_mode)) (λ n e. (_, refl)) in
    let (b5, e5) = checks-some c.fnlinks (int_test sb.st_nlink) (λ n e. (_, refl)) in
    elim (Bool-cases (is_no_type type)) [
      | inl i ↦ (false, rw i)
      | inr i ↦ (b1 && b2 && b3 && b4 && b5, rw (i, e1, e2, e3, e4, e5))
    ]
