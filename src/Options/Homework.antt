-- ===== src/Options/Homework.antt =====
-- HWs/HW4/arg.c
use cse344_coursework.Base.{[], ◌∷◌, ℕ, ◌||◌, Option, none, some, List, ◌==◌, if◌then◌else◌, Bytes}
use cse344_coursework.Options.{is_not_a_number}

pub record Settings : Type 0 where
  pub homework_file_path : Bytes
  pub students_file_path : Bytes
  pub money : ℕ

-- `argv`, the program's name first.
pub set_opts_and_args : (Bytes → ℕ) → List Bytes → Option Settings
set_opts_and_args atoi (prog ∷ homework ∷ students ∷ money ∷ []) =
    if is_not_a_number money || atoi money == 0
    then none
    else some (record {
      homework_file_path = homework;
      students_file_path = students;
      money = atoi money;
    })
set_opts_and_args atoi _ = none
