-- ===== src/Tests/CommandLines.antt =====
-- Command lines that are accepted. `atoi` reads decimal digits.
use cse344_coursework.Base.{
  ℕ, ◌+◌, ◌-◌, ◌*◌, ◌≡◌, refl, true, false, pos, some, List, [], ◌∷◌, if◌then◌else◌, Bytes, codes,
}
use cse344_coursework.Options.{Opt, opt, is_digit, is_not_a_number}
use cse344_coursework.Options.Server
use cse344_coursework.Options.Client
use cse344_coursework.Options.Clinic
use cse344_coursework.Options.Potato
use cse344_coursework.Options.Finder
use cse344_coursework.Options.Server.{set_opts_and_args-Accepted}

abbrev digits : ℕ → Bytes → ℕ
digits n [] = n
digits n (c ∷ s) = let rest = digits (n * 10 + (c - b'0')) s in if is_digit c then rest else n

abbrev pub atoi : Bytes → ℕ
atoi s = digits 0 s

abbrev server_line : List Opt
server_line =
    opt b'p' (codes "5000")
    ∷ opt b'o' (codes "log")
    ∷ opt b'l' (codes "4")
    ∷ opt b'd' (codes "data.csv")
    ∷ []

abbrev server : Server.Settings
server = record {
  port = 5000;
  path_to_log_file = some (codes "log");
  pool_size = 4;
  dataset_path = some (codes "data.csv");
  p_fnd = true;
  o_fnd = true;
  l_fnd = true;
  d_fnd = true;
}

abbrev client_line : List Opt
client_line =
    opt b'i' (codes "1")
    ∷ opt b'a' (codes "127.0.0.1")
    ∷ opt b'p' (codes "5000")
    ∷ opt b'o' (codes "queries")
    ∷ []

abbrev client : Client.Settings
client = record {
  id = pos 1;
  ipv4 = some (codes "127.0.0.1");
  port = 5000;
  path_to_query_file = some (codes "queries");
  i_fnd = true;
  a_fnd = true;
  p_fnd = true;
  o_fnd = true;
}

abbrev clinic_line : List Opt
clinic_line =
    opt b'n' (codes "3")
    ∷ opt b'v' (codes "2")
    ∷ opt b'c' (codes "3")
    ∷ opt b'b' (codes "11")
    ∷ opt b't' (codes "3")
    ∷ opt b'i' (codes "vaccines")
    ∷ []

abbrev clinic : Clinic.Clinic
clinic = record {
  nurses = 3;
  vaccinators = 2;
  citizens = 3;
  buffer = 11;
  dose = 3;
  input = codes "vaccines";
}

abbrev potato_line : List Opt
potato_line =
    opt b'b' (codes "3")
    ∷ opt b's' (codes "memory")
    ∷ opt b'f' (codes "fifos")
    ∷ opt b'm' (codes "sem")
    ∷ []

abbrev potato : Potato.Settings
potato = record {
  name_of_shared_memory = some (codes "memory");
  file_with_fifo_names = some (codes "fifos");
  named_semaphore = some (codes "sem");
  has_potato_or_not = pos 3;
  p_fnd = true;
  m_fnd = true;
  f_fnd = true;
  s_fnd = true;
}

abbrev finder_line : List Opt
finder_line = opt b'f' (codes "lo+st") ∷ opt b'b' (codes "12") ∷ opt b'w' (codes "/tmp") ∷ []

abbrev finder : Finder.Criteria
finder = record Finder.initial {
  fname = some (codes "lo+st");
  fsize = some (pos 12);
  spath = some (codes "/tmp");
}

client_accepted : Client.set_opts_and_args atoi client_line ≡ some client
unfolding Client.set_opts_and_args is_not_a_number
client_accepted = refl

potato_accepted : Potato.set_opts_and_args (λ s. pos (atoi s)) false potato_line ≡ some potato
unfolding Potato.set_opts_and_args is_not_a_number
potato_accepted = refl

finder_accepted : Finder.set_opts_and_args (λ s. pos (atoi s)) false finder_line ≡ some finder
unfolding Finder.set_opts_and_args
finder_accepted = refl

clinic_accepted : Clinic.set_opts_and_args atoi false clinic_line ≡ some clinic
unfolding Clinic.set_opts_and_args is_not_a_number Clinic.int_less
clinic_accepted = refl
