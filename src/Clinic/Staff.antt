-- ===== src/Clinic/Staff.antt =====
-- The processes of Midterm/main.c on the clinic's buffer: nurseChild and vaccinatorChild in the
-- numbers of the command line, and citizenChild for each citizen, without SIGINT. A nurse or
-- vaccinator that is at the top of its loop is one that neither holds or waits inside nor is done.
use cse344_coursework.Base.{
  ℕ, zero, suc, ◌+◌, ◌<◌, ◌≡◌, some, List, [], ◌∷◌, get_elem?, set, replicate,
}
use cse344_coursework.Clinic.{
  Buffer, alloc_buff_shared_mem, Step, takes_empty, brings, takes_full, takes_second, decides,
  invites, comes,
}

-- `needs i` is `citizenChild` at `while(i)`.
pub data Citizen : Type 0 where
  needs : ℕ → Citizen
  gone : Citizen

pub record Clinic : Type 0 where
  pub buffer : Buffer
  pub citizens : List Citizen
  pub dead_citizen : ℕ

-- A nurse or a vaccinator starts a round only if there is one at the top of its loop; what a citizen
-- does is a move of its own.
abbrev pub IsStaffed : (n v all : ℕ) (b : Buffer) {c : Buffer} → Step all b c → Type 0
IsStaffed n v all b (takes_empty h) = b.nurse_termination + b.holding < n
IsStaffed n v all b (brings h f) = Unit
IsStaffed n v all b (takes_full h f) = b.vaccinators_done < v
IsStaffed n v all b (takes_second h f) = Unit
IsStaffed n v all b (decides f) = Unit
IsStaffed n v all b (invites h f) = Unit
IsStaffed n v all b comes = ⊥

pub data Move (n v all : ℕ) (s : Clinic) : Clinic → Type 0 where
  acts :
      {c : Buffer} (st : Step all s.buffer c)
      → IsStaffed n v all s.buffer st
      → Move n v all s (record s { buffer = c })
  -- `citizenChild` under `mSafe`: it posts `mCitizen`.
  comes_in :
      (j i : ℕ)
      → get_elem? s.citizens j ≡ some (needs (suc i))
      → Move n v all s (record s {
        buffer = record (s.buffer) { m_citizen = s.buffer.m_citizen + 1 };
        citizens = set s.citizens j (needs i);
      })
  leaves :
      (j : ℕ)
      → get_elem? s.citizens j ≡ some (needs zero)
      → Move n v all s
          (record s { citizens = set s.citizens j gone; dead_citizen = s.dead_citizen + 1 })

-- `main` behind `createProcess`: `c` citizens who need `t` doses each.
unfoldable pub opened : (c t size : ℕ) (input : List ℕ) → Clinic
unfolding alloc_buff_shared_mem
opened c t size input = record {
  buffer = alloc_buff_shared_mem size input;
  citizens = replicate c (needs t);
  dead_citizen = 0;
}

pub data Moves (n v all : ℕ) (s : Clinic) : Clinic → Type 0 where
  here : Moves n v all s s
  next : {d e : Clinic} → Moves n v all s d → Move n v all d e → Moves n v all s e

abbrev pub AllGone : List Citizen → Type 0
AllGone [] = Unit
AllGone (needs i ∷ cs) = ⊥
AllGone (gone ∷ cs) = AllGone cs

-- Every process has ended, and `main` closes the clinic.
pub record IsClosed (n v all c : ℕ) (s : Clinic) : Type 0 where
  pub nurses : s.buffer.nurse_termination ≡ n
  pub vaccinators : s.buffer.vaccinators_done ≡ v
  pub applied : s.buffer.total_applied_dose ≡ all
  pub citizens_gone : AllGone s.citizens
  pub counted : s.dead_citizen ≡ c
