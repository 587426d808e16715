-- ===== src/Tests/Homeworks.antt =====
-- The fifo counter, the students for hire and the clinic at concrete data.
use cse344_coursework.Base.{
  ℕ, zero, suc, ◌+◌, ◌-◌, ◌≡◌, refl, false, none, some, List, [], ◌∷◌, get_elem?, arith, pos,
}
use cse344_coursework.Hire.{
  Student, Desk, Starts, append, turn, started, solved, Reach, start, then_step, begin, hand_in,
  hire, dispatch, total_cost,
}
use cse344_coursework.Hire.Accounts.{all_jobs}
use cse344_coursework.Hire.Money.{Reach-settled}
use cse344_coursework.Hire.Progress.{quality, Reach-dispatches}
use cse344_coursework.Clinic.{
  Buffer, Turn, inviting, alloc_buff_shared_mem, nurse, vaccinator, takes_empty, brings, takes_full,
  takes_second, decides,
}
use cse344_coursework.Clinic.Doses.{occurrences, Reach-conserved}
use cse344_coursework.Clinic

abbrev student : Student
student = record {
  quality = pos 5;
  speed = pos 3;
  cost = 4;
  busy = false;
  start_work = 0;
  balance = 0;
  solved = 0;
  arg_c = 0;
  arg_money = 0;
}

abbrev students : List Student
students = student ∷ record student { quality = pos 6; speed = pos 9; cost = 3 } ∷ []

abbrev opening : Desk
opening = record {
  students = student ∷ [];
  money = 10;
  hw_queue = [];
  available = 1;
  finished = false;
  index = none;
}

opening-fresh :
    (i : ℕ) (s : Student)
    → get_elem? (student ∷ []) i ≡ some s
    → (s.busy ≡ false) × (s.start_work ≡ 0) × (s.balance ≡ 0) × (s.solved ≡ 0)
opening-fresh zero s e = ground arith
opening-fresh (suc i) s e = cc

-- One homework is read, given, begun and handed in.
abbrev queued : Desk
queued = record opening { hw_queue = b'Q' ∷ [] }

abbrev given : Desk
given = record opening {
  students = hire student b'Q' 6 ∷ [];
  money = 6;
  available = 0;
  index = some 0;
}

abbrev begun : Desk
begun = record given { students = begin (hire student b'Q' 6) ∷ [] }

abbrev handed_in : Desk
handed_in = record given { students = hand_in (begin (hire student b'Q' 6)) ∷ []; available = 1 }

queued-Reach : Reach 10 queued
unfolding Starts
queued-Reach =
    then_step opening queued (start opening (refl, refl, opening-fresh)) (append opening b'Q')

handed_in-Reach : Reach 10 handed_in
unfolding dispatch
handed_in-Reach =
    let given-Reach : Reach 10 given =
      then_step queued given queued-Reach (turn queued given refl refl) in
    let begun-Reach : Reach 10 begun =
      then_step given begun given-Reach
        (started given 0 (hire student b'Q' 6) refl refl refl (omega arith)) in
    then_step begun handed_in begun-Reach (solved begun 0 (begin (hire student b'Q' 6)) refl refl)

Reach-settled_example : 10 - total_cost handed_in.students ≡ handed_in.money
unfolding all_jobs
Reach-settled_example = Reach-settled 10 handed_in handed_in-Reach refl

Reach-dispatches_example : (e : Desk) × (dispatch queued ≡ some e)
Reach-dispatches_example =
    Reach-dispatches 10 queued b'Q' [] queued-Reach refl (omega arith) refl quality
      ((refl, refl, omega arith), tt)

-- A clinic with room for three vaccines, and a file with one of each.
abbrev vaccines : List ℕ
vaccines = b'1' ∷ b'2' ∷ []

abbrev closed : Buffer
unfolding alloc_buff_shared_mem
closed = alloc_buff_shared_mem 3 vaccines

-- Both were brought, and a vaccinator invites a citizen.
abbrev open_clinic : Buffer
open_clinic = record {
  total_applied_dose = 0;
  nurse_termination = 0;
  first_dose = 1;
  sec_dose = 1;
  input = [];
  is_eof = false;
  empty = 1;
  full = 0;
  m_citizen = 0;
  holding = 0;
  turn = inviting;
  vaccinators_done = 0;
}

open_clinic-Reach : Clinic.Reach 3 1 vaccines open_clinic
unfolding alloc_buff_shared_mem nurse vaccinator
open_clinic-Reach =
    Clinic.then_step
      (Clinic.then_step
        (Clinic.then_step
          (Clinic.then_step
            (Clinic.then_step
              (Clinic.then_step (Clinic.then_step Clinic.start (takes_empty (omega arith)))
                (brings (omega arith) refl))
              (takes_empty (omega arith)))
            (brings (omega arith) refl))
          (takes_full (omega arith) refl))
        (takes_second (omega arith) refl))
      (decides refl)

Reach-conserved_example :
    (open_clinic.first_dose + open_clinic.total_applied_dose + occurrences b'1' open_clinic.input
      ≡ occurrences b'1' vaccines)
    × (open_clinic.sec_dose + open_clinic.total_applied_dose + occurrences b'2' open_clinic.input
        ≡ occurrences b'2' vaccines)
Reach-conserved_example = Reach-conserved 3 1 vaccines open_clinic open_clinic-Reach
