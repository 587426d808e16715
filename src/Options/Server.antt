-- ===== src/Options/Server.antt =====
-- Final/Server/arg.c
use mathlib.Core.Path.{subst}
use cse344_coursework.Base.{
  [], ◌∷◌, ℕ, ◌≡◌, ◌≤◌, Bool, true, false, not, ◌&&◌, ◌||◌, Option, none, some, List, leb, ltb,
  ◌==◌, if◌then◌else◌, ◌>>=◌, Bytes, arith,
}
use cse344_coursework.Options.{
  Opt, is_not_a_number, each_opt, opt, each_opt-Ensures, Ensures, Ensures-bind,
}

abbrev pub valid_lower_port_limit : ℕ
valid_lower_port_limit = 1000

abbrev pub valid_upper_port_limit : ℕ
valid_upper_port_limit = 65535

pub record Settings : Type 0 where
  pub port : ℕ
  pub path_to_log_file : Option Bytes
  pub pool_size : ℕ
  pub dataset_path : Option Bytes
  pub p_fnd : Bool
  pub o_fnd : Bool
  pub l_fnd : Bool
  pub d_fnd : Bool

abbrev pub initial : Settings
initial = record {
  port = 0;
  path_to_log_file = none;
  pool_size = 0;
  dataset_path = none;
  p_fnd = false;
  o_fnd = false;
  l_fnd = false;
  d_fnd = false;
}

is_valid_port : (port lower upper : ℕ) → Bool
is_valid_port port lower upper = leb lower port && leb port upper

-- One case of the switch.
take_opt : (Bytes → ℕ) → Settings → Opt → Option Settings
take_opt atoi s o =
    if o.letter == b'p'
    then (if is_not_a_number o.optarg
          || not (is_valid_port (atoi o.optarg) valid_lower_port_limit valid_upper_port_limit)
        then none
        else some (record s { port = atoi o.optarg; p_fnd = true }))
    else if o.letter == b'o'
    then some (record s { path_to_log_file = some o.optarg; o_fnd = true })
    else if o.letter == b'l'
    then (if is_not_a_number o.optarg || ltb (atoi o.optarg) 2
        then none
        else some (record s { pool_size = atoi o.optarg; l_fnd = true }))
    else if o.letter == b'd'
    then some (record s { dataset_path = some o.optarg; d_fnd = true })
    else none

-- What the flags promise while options are read.
record Promised (s : Settings) : Type 0 where
  port_range :
      s.p_fnd ≡ true → (valid_lower_port_limit ≤ s.port) × (s.port ≤ valid_upper_port_limit)
  pool_range : s.l_fnd ≡ true → 2 ≤ s.pool_size
  log : s.o_fnd ≡ true → (path : Bytes) × (s.path_to_log_file ≡ some path)
  dataset : s.d_fnd ≡ true → (path : Bytes) × (s.dataset_path ≡ some path)

port_lem :
    (port : ℕ)
    → valid_lower_port_limit ≤ port
    → port ≤ valid_upper_port_limit
    → is_valid_port port valid_lower_port_limit valid_upper_port_limit ≡ true
unfolding is_valid_port
port_lem port lo hi = ground arith

take_opt-Promised :
    (atoi : Bytes → ℕ) (s : Settings) (o : Opt) → Promised s → Ensures Promised (take_opt atoi s o)
unfolding take_opt is_valid_port
take_opt-Promised atoi s o p = ground arith

-- What the server starts with.
pub record Accepted (s : Settings) : Type 0 where
  pub port_lower : valid_lower_port_limit ≤ s.port
  pub port_upper : s.port ≤ valid_upper_port_limit
  pub pool : 2 ≤ s.pool_size
  pub log : (path : Bytes) × (s.path_to_log_file ≡ some path)
  pub dataset : (path : Bytes) × (s.dataset_path ≡ some path)

finish : Settings → Option Settings
finish t = if not t.p_fnd || not t.o_fnd || not t.l_fnd || not t.d_fnd then none else some t

unfoldable pub set_opts_and_args : (Bytes → ℕ) → List Opt → Option Settings
unfolding take_opt finish is_valid_port
set_opts_and_args atoi opts = each_opt (take_opt atoi) initial opts >>= finish

finish-Accepted : (t : Settings) → Promised t → Ensures Accepted (finish t)
unfolding finish
finish-Accepted t p = ground arith

-- If the server does not exit on its command line, its port is in the valid range, its pool has at
-- least two threads, and both paths are given.
pub set_opts_and_args-Accepted :
    (atoi : Bytes → ℕ) (opts : List Opt) (s : Settings)
    → set_opts_and_args atoi opts ≡ some s
    → Accepted s
unfolding set_opts_and_args
set_opts_and_args-Accepted atoi opts s e =
    let all =
      each_opt-Ensures Promised (take_opt atoi) (take_opt-Promised atoi) initial opts
        (ground arith) in
    subst (Ensures Accepted) e (
      Ensures-bind Promised Accepted (each_opt (take_opt atoi) initial opts) finish all
        finish-Accepted)

-- A valid port, a log path, a pool of two or more and a dataset are accepted in this order, and the
-- settings hold them.
pub set_opts_and_args-valid :
    (atoi : Bytes → ℕ) (p o l d : Bytes)
    → is_not_a_number p ≡ false
    → is_not_a_number l ≡ false
    → valid_lower_port_limit ≤ atoi p
    → atoi p ≤ valid_upper_port_limit
    → 2 ≤ atoi l
    → set_opts_and_args atoi (opt b'p' p ∷ opt b'o' o ∷ opt b'l' l ∷ opt b'd' d ∷ [])
      ≡ some (record {
        port = atoi p;
        path_to_log_file = some o;
        pool_size = atoi l;
        dataset_path = some d;
        p_fnd = true;
        o_fnd = true;
        l_fnd = true;
        d_fnd = true;
      })
unfolding set_opts_and_args
set_opts_and_args-valid atoi p o l d hp hl lo hi two =
    let port_ok : is_valid_port (atoi p) valid_lower_port_limit valid_upper_port_limit ≡ true =
      port_lem (atoi p) lo hi in
    let pool_ok : ltb (atoi l) 2 ≡ false = ground arith in rw (hp, port_ok, hl, pool_ok)
