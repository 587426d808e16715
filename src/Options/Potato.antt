-- ===== src/Options/Potato.antt =====
-- HWs/HW3/getopt.c
use mathlib.Core.Path.{subst}
use cse344_coursework.Base.{
  ℤ, pos, negsuc, minus_one, ◌≡◌, ◌⊎◌, inl, inr, Bool, true, false, not, ◌||◌, Option, none, some,
  List, ◌==◌, if◌then◌else◌, ◌>>=◌, Bool-cases, refl, Bytes, All, arith,
}
use cse344_coursework.Options.{
  Opt, is_digit, is_not_a_number, is_not_a_number_iff, each_opt, each_opt-Ensures, Ensures,
  Ensures-bind,
}

pub record Settings : Type 0 where
  pub name_of_shared_memory : Option Bytes
  pub file_with_fifo_names : Option Bytes
  pub named_semaphore : Option Bytes
  pub has_potato_or_not : ℤ
  pub p_fnd : Bool
  pub m_fnd : Bool
  pub f_fnd : Bool
  pub s_fnd : Bool

abbrev pub initial : Settings
initial = record {
  name_of_shared_memory = none;
  file_with_fifo_names = none;
  named_semaphore = none;
  has_potato_or_not = minus_one;
  p_fnd = false;
  m_fnd = false;
  f_fnd = false;
  s_fnd = false;
}

abbrev pub is_zero : ℤ → Bool
is_zero (pos n) = n == 0
is_zero (negsuc n) = false

-- `is_not_a_number` here: the digits are looked at only while the value is 0.
is_not_a_count : ℤ → Bytes → Bool
is_not_a_count v str = if is_zero v then is_not_a_number str else false

-- One case of the switch; an unknown option is passed over.
take_opt : (Bytes → ℤ) → Settings → Opt → Option Settings
take_opt atoi s o =
    if o.letter == b'b'
    then (if is_not_a_count (atoi o.optarg) o.optarg
        then none
        else some (record s { has_potato_or_not = atoi o.optarg; p_fnd = true }))
    else if o.letter == b's'
    then some (record s { name_of_shared_memory = some o.optarg; m_fnd = true })
    else if o.letter == b'f'
    then some (record s { file_with_fifo_names = some o.optarg; f_fnd = true })
    else if o.letter == b'm'
    then some (record s { named_semaphore = some o.optarg; s_fnd = true })
    else some s

-- The check behind the loop; `extra` is `optind < argc`.
finish : (extra : Bool) → Settings → Option Settings
finish extra s =
    if not s.p_fnd || not s.m_fnd || not s.f_fnd || not s.s_fnd || extra then none else some s

unfoldable pub set_opts_and_args : (Bytes → ℤ) → (extra : Bool) → List Opt → Option Settings
unfolding take_opt finish is_not_a_count
set_opts_and_args atoi extra opts = each_opt (take_opt atoi) initial opts >>= finish extra

-- The potatoes came from a text: it has digits only, or its value is not 0.
pub FromText : (Bytes → ℤ) → ℤ → Type 0
FromText atoi v =
    (text : Bytes) × (v ≡ atoi text) × ((All (λ c. is_digit c ≡ true) text) ⊎ (is_zero v ≡ false))

record Promised (atoi : Bytes → ℤ) (s : Settings) : Type 0 where
  potatoes : s.p_fnd ≡ true → FromText atoi s.has_potato_or_not
  memory : s.m_fnd ≡ true → (n : Bytes) × (s.name_of_shared_memory ≡ some n)
  fifos : s.f_fnd ≡ true → (n : Bytes) × (s.file_with_fifo_names ≡ some n)
  semaphore : s.s_fnd ≡ true → (n : Bytes) × (s.named_semaphore ≡ some n)

count_text :
    (atoi : Bytes → ℤ) (text : Bytes)
    → is_not_a_count (atoi text) text ≡ false
    → FromText atoi (atoi text)
unfolding is_not_a_count FromText
count_text atoi text h = elim (Bool-cases (is_zero (atoi text))) [
  | inl z ↦ (text, refl, inl (is_not_a_number_iff text (ground arith)))
  | inr nz ↦ (text, refl, inr nz)
]

take_opt-Promised :
    (atoi : Bytes → ℤ) (s : Settings) (o : Opt)
    → Promised atoi s
    → Ensures (Promised atoi) (take_opt atoi s o)
unfolding take_opt
take_opt-Promised atoi s o p = ground (arith, count_text atoi o.optarg)

-- What a process starts with.
pub record Ready (atoi : Bytes → ℤ) (extra : Bool) (s : Settings) : Type 0 where
  pub potatoes : FromText atoi s.has_potato_or_not
  pub memory : (n : Bytes) × (s.name_of_shared_memory ≡ some n)
  pub fifos : (n : Bytes) × (s.file_with_fifo_names ≡ some n)
  pub semaphore : (n : Bytes) × (s.named_semaphore ≡ some n)
  pub no_extra : extra ≡ false

finish-Ready :
    (atoi : Bytes → ℤ) (extra : Bool) (t : Settings)
    → Promised atoi t
    → Ensures (Ready atoi extra) (finish extra t)
unfolding finish
finish-Ready atoi extra t p = ground arith

-- If a process does not exit on its command line, the three names are given, nothing is left behind
-- the options, and the potato count is the value of a text that has digits only or whose value is not
-- 0 (a text such as "-3" or "5x" passes).
pub set_opts_and_args-Ready :
    (atoi : Bytes → ℤ) (extra : Bool) (opts : List Opt) (s : Settings)
    → set_opts_and_args atoi extra opts ≡ some s
    → Ready atoi extra s
unfolding set_opts_and_args
set_opts_and_args-Ready atoi extra opts s e =
    let all =
      each_opt-Ensures (Promised atoi) (take_opt atoi) (take_opt-Promised atoi) initial opts
        (ground arith) in
    subst (Ensures (Ready atoi extra)) e (
      Ensures-bind (Promised atoi) (Ready atoi extra) (each_opt (take_opt atoi) initial opts)
        (finish extra) all (finish-Ready atoi extra))
