-- ===== src/Clinic.antt =====
-- The clinic of Midterm/main.c: nurses, vaccinators and citizens on the shared buffer, without the
-- SIGINT paths. A nurse's work under the semaphore `m` is one step, a vaccinator's is cut where it
-- waits for a citizen. There may be any number of nurses, vaccinators and citizens, which covers the
-- numbers of the command line. Ids and counts that are only printed are left out.
pub mod Doses
pub mod Staff
pub mod Leaving
pub mod Rounds
pub mod Closing
pub mod Opening
pub mod Census
use cse344_coursework.Base.{
  ℕ, zero, suc, ◌+◌, ◌-◌, ◌*◌, ◌≤◌, ◌<◌, ◌≡◌, refl, Bool, true, false, ◌&&◌, ◌||◌, not, Option,
  none, some, List, [], ◌∷◌, ltb, ◌==◌, if◌then◌else◌,
}

-- How far the vaccinator that has `mConsumer` has come: how often it has waited for `full`, and
-- whether it has `m` and waits for `mCitizen`. A vaccinator waits for `m` with both.
pub data Turn : Type 0 where
  nobody one_full two_full inviting : Turn

-- `input` is what is left of the vaccine file. `m` is taken by a nurse only within a step, and
-- otherwise by the vaccinator that is `inviting`. `holding` counts the nurses that have waited for
-- `empty` and wait for `m`.
pub record Buffer : Type 0 where
  pub total_applied_dose : ℕ
  pub nurse_termination : ℕ
  pub first_dose : ℕ
  pub sec_dose : ℕ
  pub input : List ℕ
  pub is_eof : Bool
  pub empty : ℕ
  pub full : ℕ
  pub m_citizen : ℕ
  pub holding : ℕ
  pub turn : Turn
  pub vaccinators_done : ℕ

-- `allocBuffSharedMem` and `allocFptrSharedMem`
unfoldable pub alloc_buff_shared_mem : (size : ℕ) (input : List ℕ) → Buffer
alloc_buff_shared_mem size input = record {
  total_applied_dose = 0;
  nurse_termination = 0;
  first_dose = 0;
  sec_dose = 0;
  input = input;
  is_eof = false;
  empty = size;
  full = 0;
  m_citizen = 0;
  holding = 0;
  turn = nobody;
  vaccinators_done = 0;
}

-- The vaccine in the file's next byte. `x_read` of no byte is the end.
abbrev pub brought : List ℕ → Buffer → Buffer
brought [] b = record b {
  is_eof = true;
  nurse_termination = b.nurse_termination + 1;
  holding = b.holding - 1;
  full = b.full + 1;
}
brought (c ∷ input) b =
    if c == b'1'
    then record b {
      input = input;
      first_dose = b.first_dose + 1;
      holding = b.holding - 1;
      full = b.full + 1;
    }
    else if c == b'2'
    then record b {
      input = input;
      sec_dose = b.sec_dose + 1;
      holding = b.holding - 1;
      full = b.full + 1;
    }
    else record b { input = input; holding = b.holding - 1; empty = b.empty + 1 }

-- `nurseChild` behind `x_sem_wait(&m)`, with `bringVaccine`. After the end of the file nothing is
-- read.
unfoldable pub nurse : Buffer → Buffer
nurse b = brought (if b.is_eof then [] else b.input) b

pub is_there_any_dose : Buffer → Bool
is_there_any_dose b = ltb 0 b.first_dose && ltb 0 b.sec_dose

-- `vaccinatorChild` behind `x_sem_wait(&m)`, up to the wait for a citizen; `all` is
-- `numOfCitizens*numOfDose`.
unfoldable pub vaccinator : (all : ℕ) → Buffer → Buffer
unfolding is_there_any_dose
vaccinator all b =
    if b.total_applied_dose == all
    then record b { full = b.full + 2; turn = nobody; vaccinators_done = b.vaccinators_done + 1 }
    else if not (is_there_any_dose b)
    then record b { full = b.full + 2; turn = nobody }
    else record b { turn = inviting }

-- and from there on. The counters are integers in the source; that the doses are there is a theorem.
unfoldable pub invite : Buffer → Buffer
invite b = record b {
  m_citizen = b.m_citizen - 1;
  first_dose = b.first_dose - 1;
  sec_dose = b.sec_dose - 1;
  total_applied_dose = b.total_applied_dose + 1;
  empty = b.empty + 2;
  turn = nobody;
}

-- `m` is free.
abbrev pub m_free : Turn → Bool
m_free inviting = false
m_free _ = true

pub data Step (all : ℕ) (b : Buffer) : Buffer → Type 0 where
  takes_empty : 0 < b.empty → Step all b (record b { empty = b.empty - 1; holding = b.holding + 1 })
  brings : 0 < b.holding → m_free b.turn ≡ true → Step all b (nurse b)
  takes_full :
      0 < b.full → b.turn ≡ nobody → Step all b (record b { full = b.full - 1; turn = one_full })
  takes_second :
      0 < b.full → b.turn ≡ one_full → Step all b (record b { full = b.full - 1; turn = two_full })
  decides : b.turn ≡ two_full → Step all b (vaccinator all b)
  invites : 0 < b.m_citizen → b.turn ≡ inviting → Step all b (invite b)
  -- `citizenChild`: a citizen is there.
  comes : Step all b (record b { m_citizen = b.m_citizen + 1 })

pub data Reach (size all : ℕ) (input : List ℕ) : Buffer → Type 0 where
  start : Reach size all input (alloc_buff_shared_mem size input)
  then_step : {b c : Buffer} → Reach size all input b → Step all b c → Reach size all input c
