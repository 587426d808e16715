-- ===== src/Options/Clinic.antt =====
-- Midterm/getopt.c. atoi is a parameter; it gives an int, and is not called with a text that has another
-- character than digits.
use cse344_coursework.Base.{
  ℕ, ◌+◌, ◌*◌, ◌%◌, ◌^◌, ◌<◌, true, ◌≡◌, ◌≤◌, Bool, false, ◌||◌, Option, none, some, List, ltb,
  ◌==◌, if◌then◌else◌, ◌>>=◌, bind-eq-some, Bytes, arith,
}
use cse344_coursework.Options.{Opt, is_not_a_number, each_opt}

-- A number that was not given is `none` (-1 and a flag of 0 in the source).
pub record Settings : Type 0 where
  pub num_of_nurses : Option ℕ
  pub num_of_vaccinators : Option ℕ
  pub num_of_citizens : Option ℕ
  pub size_of_the_buffer : Option ℕ
  pub num_of_dose : Option ℕ
  pub input_file : Option Bytes

abbrev pub initial : Settings
initial = record {
  num_of_nurses = none;
  num_of_vaccinators = none;
  num_of_citizens = none;
  size_of_the_buffer = none;
  num_of_dose = none;
  input_file = none;
}

-- One case of the switch; an unknown option is passed over.
take_opt : (Bytes → ℕ) → Settings → Opt → Option Settings
take_opt atoi s o =
    if o.letter == b'i'
    then some (record s { input_file = some o.optarg })
    else if o.letter == b'n'
        || o.letter == b'v'
        || o.letter == b'c'
        || o.letter == b'b'
        || o.letter == b't'
    then (if is_not_a_number o.optarg
        then none
        else if o.letter == b'n'
        then some (record s { num_of_nurses = some (atoi o.optarg) })
        else if o.letter == b'v'
        then some (record s { num_of_vaccinators = some (atoi o.optarg) })
        else if o.letter == b'c'
        then some (record s { num_of_citizens = some (atoi o.optarg) })
        else if o.letter == b'b'
        then some (record s { size_of_the_buffer = some (atoi o.optarg) })
        else some (record s { num_of_dose = some (atoi o.optarg) }))
    else some s

-- The numbers of a clinic that may open.
pub record Clinic : Type 0 where
  pub nurses : ℕ
  pub vaccinators : ℕ
  pub citizens : ℕ
  pub buffer : ℕ
  pub dose : ℕ
  pub input : Bytes

-- `size < t * c + 1` on 32-bit ints that are not negative: the right side wraps around, and one that is
-- negative then is not greater.
unfoldable pub int_less : (size m : ℕ) → Bool
int_less size m = let r = m % 2 ^ 32 in if ltb r (2 ^ 31) then ltb size r else false

-- The checks behind the loop; `extra` is `optind < argc`.
finish : (extra : Bool) → Settings → Option Clinic
finish extra s = do
  n ← s.num_of_nurses
  v ← s.num_of_vaccinators
  c ← s.num_of_citizens
  b ← s.size_of_the_buffer
  t ← s.num_of_dose
  i ← s.input_file
  if extra || ltb n 2 || ltb v 2 || ltb c 3 || ltb t 1 || int_less b (t * c + 1)
      then none
      else some
          (record { nurses = n; vaccinators = v; citizens = c; buffer = b; dose = t; input = i })

unfoldable pub set_opts_and_args : (Bytes → ℕ) → (extra : Bool) → List Opt → Option Clinic
unfolding take_opt finish
set_opts_and_args atoi extra opts = each_opt (take_opt atoi) initial opts >>= finish extra

-- If the clinic opens, its numbers meet the limits of the usage text, and nothing is left on the
-- command line.
pub record MayOpen (extra : Bool) (c : Clinic) : Type 0 where
  pub nurses_two : 2 ≤ c.nurses
  pub vaccinators_two : 2 ≤ c.vaccinators
  pub citizens_three : 3 ≤ c.citizens
  pub dose_one : 1 ≤ c.dose
  pub buffer_room : c.dose * c.citizens + 1 < 2 ^ 31 → c.dose * c.citizens + 1 ≤ c.buffer
  pub no_extra : extra ≡ false

int_less-in_range : (size m : ℕ) → m < 2 ^ 31 → int_less size m ≡ false → m ≤ size
unfolding int_less
int_less-in_range size m fits e =
    let same : m % 2 ^ 32 ≡ m = omega (arith, fits) in
    let in_range : ltb m (2 ^ 31) ≡ true = ground (arith, fits) in
    let not_less : ltb size m ≡ false = rw (same, in_range) at e in ground (arith, not_less)

finish-MayOpen :
    (extra : Bool) (s : Settings) (c : Clinic) → finish extra s ≡ some c → MayOpen extra c
unfolding finish
finish-MayOpen extra s c e = ground (arith, int_less-in_range c.buffer (c.dose * c.citizens + 1))

-- If the clinic opens, there are at least two nurses, two vaccinators and three citizens, each
-- citizen has a dose, the buffer has room for more than all doses of the citizens if t * c + 1 fits in
-- an int, and no argument is left on the command line.
pub set_opts_and_args-MayOpen :
    (atoi : Bytes → ℕ) (extra : Bool) (opts : List Opt) (c : Clinic)
    → set_opts_and_args atoi extra opts ≡ some c
    → MayOpen extra c
unfolding set_opts_and_args
set_opts_and_args-MayOpen atoi extra opts c e =
    let (s, read, done) = bind-eq-some (each_opt (take_opt atoi) initial opts) (finish extra) e in
    finish-MayOpen extra s c done
