-- ===== src/Options/Client.antt =====
-- Final/Client/arg.c
use mathlib.Core.Path.{subst}
use cse344_coursework.Base.{
  ℕ, ℤ, minus_one, pos, ◌≡◌, ◌≤◌, Bool, true, false, not, ◌&&◌, ◌||◌, Option, none, some, List, leb,
  ◌==◌, if◌then◌else◌, ◌>>=◌, Bytes, arith,
}
use cse344_coursework.Options.{
  Opt, is_not_a_number, each_opt, each_opt-Ensures, Ensures, Ensures-bind,
}

abbrev pub valid_lower_port_limit : ℕ
valid_lower_port_limit = 1000

abbrev pub valid_upper_port_limit : ℕ
valid_upper_port_limit = 65535

pub record Settings : Type 0 where
  pub id : ℤ
  pub ipv4 : Option Bytes
  pub port : ℕ
  pub path_to_query_file : Option Bytes
  pub i_fnd : Bool
  pub a_fnd : Bool
  pub p_fnd : Bool
  pub o_fnd : Bool

-- `PORT` is unsigned and starts as -1, that is 2^32 - 1.
abbrev pub initial : Settings
initial = record {
  id = minus_one;
  ipv4 = none;
  port = 4294967295;
  path_to_query_file = none;
  i_fnd = false;
  a_fnd = false;
  p_fnd = false;
  o_fnd = false;
}

is_valid_port : (port lower upper : ℕ) → Bool
is_valid_port port lower upper = leb lower port && leb port upper

-- One case of the switch.
take_opt : (Bytes → ℕ) → Settings → Opt → Option Settings
take_opt atoi s o =
    if o.letter == b'i'
    then (if is_not_a_number o.optarg
        then none
        else some (record s { id = pos (atoi o.optarg); i_fnd = true }))
    else if o.letter == b'a'
    then some (record s { ipv4 = some o.optarg; a_fnd = true })
    else if o.letter == b'p'
    then (if is_not_a_number o.optarg
          || not (is_valid_port (atoi o.optarg) valid_lower_port_limit valid_upper_port_limit)
        then none
        else some (record s { port = atoi o.optarg; p_fnd = true }))
    else if o.letter == b'o'
    then some (record s { path_to_query_file = some o.optarg; o_fnd = true })
    else none

finish : Settings → Option Settings
finish t = if not t.i_fnd || not t.a_fnd || not t.p_fnd || not t.o_fnd then none else some t

unfoldable pub set_opts_and_args : (Bytes → ℕ) → List Opt → Option Settings
unfolding take_opt finish is_valid_port
set_opts_and_args atoi opts = each_opt (take_opt atoi) initial opts >>= finish

-- What the flags promise while options are read.
record Promised (s : Settings) : Type 0 where
  port_range :
      s.p_fnd ≡ true → (valid_lower_port_limit ≤ s.port) × (s.port ≤ valid_upper_port_limit)
  ident : s.i_fnd ≡ true → (n : ℕ) × (s.id ≡ pos n)
  address : s.a_fnd ≡ true → (text : Bytes) × (s.ipv4 ≡ some text)
  queries : s.o_fnd ≡ true → (path : Bytes) × (s.path_to_query_file ≡ some path)

take_opt-Promised :
    (atoi : Bytes → ℕ) (s : Settings) (o : Opt) → Promised s → Ensures Promised (take_opt atoi s o)
unfolding take_opt is_valid_port
take_opt-Promised atoi s o p = ground arith

-- What the client starts with.
pub record Connectable (s : Settings) : Type 0 where
  pub port_lower : valid_lower_port_limit ≤ s.port
  pub port_upper : s.port ≤ valid_upper_port_limit
  pub ident : (n : ℕ) × (s.id ≡ pos n)
  pub address : (text : Bytes) × (s.ipv4 ≡ some text)
  pub queries : (path : Bytes) × (s.path_to_query_file ≡ some path)

finish-Connectable : (t : Settings) → Promised t → Ensures Connectable (finish t)
unfolding finish
finish-Connectable t p = ground arith

-- If the client does not exit on its command line, its port is in the valid range, its id is not
-- negative, and address and query file are given.
pub set_opts_and_args-Connectable :
    (atoi : Bytes → ℕ) (opts : List Opt) (s : Settings)
    → set_opts_and_args atoi opts ≡ some s
    → Connectable s
unfolding set_opts_and_args
set_opts_and_args-Connectable atoi opts s e =
    let all =
      each_opt-Ensures Promised (take_opt atoi) (take_opt-Promised atoi) initial opts
        (ground arith) in
    subst (Ensures Connectable) e (
      Ensures-bind Promised Connectable (each_opt (take_opt atoi) initial opts) finish all
        finish-Connectable)
