-- ===== src/Clinic/Doses.antt =====
-- The doses in the clinic of Midterm/main.c.
use cse344_coursework.Base.{
  ℕ, ◌+◌, ◌≤◌, ◌<◌, ◌≡◌, refl, ap, Bool, true, false, List, [], ◌∷◌, ◌==◌, if◌then◌else◌, arith,
}
use cse344_coursework.Clinic.{
  Turn, nobody, one_full, two_full, inviting, Buffer, alloc_buff_shared_mem, nurse, brought,
  vaccinator, invite, Step, takes_empty, brings, takes_full, takes_second, decides, invites, comes,
  Reach, start, then_step,
}

-- The vaccinator's waits for `full`.
unfoldable pub waits : Turn → ℕ
waits nobody = 0
waits one_full = 1
waits two_full = 2
waits inviting = 2

-- How often a byte is in the file.
unfoldable pub occurrences : ℕ → List ℕ → ℕ
occurrences c [] = 0
occurrences c (x ∷ input) = if x == c then occurrences c input + 1 else occurrences c input

pub record Inv (size : ℕ) (input : List ℕ) (b : Buffer) : Type 0 where
  pub slots : b.empty + b.holding + b.first_dose + b.sec_dose + b.nurse_termination ≡ size
  pub filled : b.full + waits b.turn ≡ b.first_dose + b.sec_dose + b.nurse_termination
  pub firsts :
      b.first_dose + b.total_applied_dose + occurrences b'1' b.input ≡ occurrences b'1' input
  pub seconds :
      b.sec_dose + b.total_applied_dose + occurrences b'2' b.input ≡ occurrences b'2' input
  pub doses_there : b.turn ≡ inviting → (1 ≤ b.first_dose) × (1 ≤ b.sec_dose)

end-Inv :
    (size : ℕ) (input : List ℕ) (b : Buffer)
    → 0 < b.holding
    → Inv size input b
    → Inv size input (brought [] b)
end-Inv size input b h v = ground arith

brought-Inv :
    (size : ℕ) (input i : List ℕ) (b : Buffer)
    → 0 < b.holding
    → i ≡ b.input
    → Inv size input b
    → Inv size input (brought i b)
unfolding occurrences
brought-Inv size input [] b h e v = end-Inv size input b h v
brought-Inv size input (c ∷ i) b h e v =
    let first = ap (occurrences b'1') e in
    let second = ap (occurrences b'2') e in ground (arith, first, second)

nurse-Inv :
    (size : ℕ) (input : List ℕ) (b : Buffer)
    → 0 < b.holding
    → Inv size input b
    → Inv size input (nurse b)
unfolding nurse
nurse-Inv size input b h v = at_end b.is_eof
  where
    at_end : (k : Bool) → Inv size input (brought (if k then [] else b.input) b)
    at_end true = end-Inv size input b h v
    at_end false = brought-Inv size input b.input b h refl v

vaccinator-Inv :
    (size all : ℕ) (input : List ℕ) (b : Buffer)
    → b.turn ≡ two_full
    → Inv size input b
    → Inv size input (vaccinator all b)
unfolding vaccinator waits
vaccinator-Inv size all input b h v = ground arith

invite-Inv :
    (size : ℕ) (input : List ℕ) (b : Buffer)
    → b.turn ≡ inviting
    → Inv size input b
    → Inv size input (invite b)
unfolding invite waits
invite-Inv size input b h v = ground arith

pub Step-Inv :
    {size all : ℕ} {input : List ℕ} {b c : Buffer}
    → Step all b c
    → Inv size input b
    → Inv size input c
unfolding waits
Step-Inv (takes_empty h) v = ground arith
Step-Inv (brings h f) v = nurse-Inv _ _ _ h v
Step-Inv (takes_full h f) v = ground arith
Step-Inv (takes_second h f) v = ground arith
Step-Inv (decides f) v = vaccinator-Inv _ _ _ _ f v
Step-Inv (invites h f) v = invite-Inv _ _ _ f v
Step-Inv comes v = ground arith

pub start-Inv : (size : ℕ) (input : List ℕ) → Inv size input (alloc_buff_shared_mem size input)
unfolding alloc_buff_shared_mem waits
start-Inv size input = record {
  slots = omega arith;
  filled = refl;
  firsts = omega arith;
  seconds = omega arith;
  doses_there = λ e. ground arith;
}

Reach-Inv : {size all : ℕ} {input : List ℕ} {b : Buffer} → Reach size all input b → Inv size input b
Reach-Inv start = start-Inv _ _
Reach-Inv (then_step r st) = Step-Inv st (Reach-Inv r)

-- The clinic never holds more vaccines than the buffer has room for.
pub Reach-room :
    (size all : ℕ) (input : List ℕ) (b : Buffer)
    → Reach size all input b
    → b.first_dose + b.sec_dose ≤ size
Reach-room size all input b r = omega (arith, (Reach-Inv r).slots)

-- No vaccine is lost or made up: those in the clinic, those given and those still in the file are
-- those of the file, for each of the two.
pub Reach-conserved :
    (size all : ℕ) (input : List ℕ) (b : Buffer)
    → Reach size all input b
    → (b.first_dose + b.total_applied_dose + occurrences b'1' b.input ≡ occurrences b'1' input)
      × (b.sec_dose + b.total_applied_dose + occurrences b'2' b.input ≡ occurrences b'2' input)
Reach-conserved size all input b r = ((Reach-Inv r).firsts, (Reach-Inv r).seconds)

-- When a vaccinator invites a citizen, both vaccines are there, so that the counters do not become
-- negative.
pub Reach-doses_there :
    (size all : ℕ) (input : List ℕ) (b : Buffer)
    → Reach size all input b
    → b.turn ≡ inviting
    → (1 ≤ b.first_dose) × (1 ≤ b.sec_dose)
Reach-doses_there size all input b r e = (Reach-Inv r).doses_there e

-- At every moment the value of `full`, with the waits that the vaccinator in turn has behind it, is
-- the number of vaccines in the clinic and of nurses that are done.
pub Reach-filled :
    (size all : ℕ) (input : List ℕ) (b : Buffer)
    → Reach size all input b
    → b.full + waits b.turn ≡ b.first_dose + b.sec_dose + b.nurse_termination
Reach-filled size all input b r = (Reach-Inv r).filled
