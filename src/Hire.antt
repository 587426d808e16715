-- ===== src/Hire.antt =====
-- The students for hire of HWs/HW4/main.c: how one is chosen, and the threads' steps on the shared
-- state. A step is what a thread does between two points at which the others see a difference;
-- SIGINT is not modelled, and costs and money are not negative.
pub mod Accounts
pub mod Choice
pub mod Closing
pub mod Money
pub mod Progress
pub mod Purse
pub mod Roster
use cse344_coursework.Base.{
  ℕ, zero, suc, ◌+◌, ◌-◌, ◌≤◌, ◌<◌, ◌≡◌, refl, Bool, true, false, ◌&&◌, not, Option, none, some,
  List, [], ◌∷◌, ◌++◌, ltb, leb, ◌==◌, if◌then◌else◌, ◌>>=◌, ℤ, pos, negsuc, ltb_ℤ, length,
  get_elem?, set, Bytes,
}

-- `start_work` is the semaphore's value, `arg_c` and `arg_money` are `args.c` and `args.moneyLeft`.
pub record Student : Type 0 where
  pub quality : ℤ
  pub speed : ℤ
  pub cost : ℕ
  pub busy : Bool
  pub start_work : ℕ
  pub balance : ℕ
  pub solved : ℕ
  pub arg_c : ℕ
  pub arg_money : ℕ

-- The loop of the three functions below: the first free student that is better than all before it.
-- `index` is what `*index` holds, `none` as long as nothing was written to it.
unfoldable pub choose_loop :
    (key : Student → ℤ) (better : ℤ → ℤ → Bool) (i : ℕ) (best : ℤ)
    → Option ℕ
    → List Student
    → Option ℕ
choose_loop key better i best index [] = index
choose_loop key better i best index (s ∷ students) =
    let taken = choose_loop key better (i + 1) (key s) (some i) students in
    let passed = choose_loop key better (i + 1) best index students in
    if not s.busy && better (key s) best then taken else passed

-- `INT_MIN` and `INT_MAX`
abbrev pub int_min : ℤ
int_min = negsuc 2147483647

abbrev pub int_max : ℤ
int_max = pos 2147483647

abbrev pub greater : ℤ → ℤ → Bool
greater a b = ltb_ℤ b a

pub maximum_quality : List Student → Option ℕ → Option ℕ
unfolding choose_loop
maximum_quality students index = choose_loop Student.quality greater 0 int_min index students

pub maximum_speed : List Student → Option ℕ → Option ℕ
unfolding choose_loop
maximum_speed students index = choose_loop Student.speed greater 0 int_min index students

pub minimum_cost : List Student → Option ℕ → Option ℕ
unfolding choose_loop
minimum_cost students index = choose_loop (λ s. pos s.cost) ltb_ℤ 0 int_max index students

-- What the threads share, and `index` of `main_thread`.
pub record Desk : Type 0 where
  pub students : List Student
  pub money : ℕ
  pub hw_queue : List ℕ
  pub available : ℕ
  pub finished : Bool
  pub index : Option ℕ

-- The switch of `main_thread`.
pub pick : (c : ℕ) → List Student → Option ℕ → Option ℕ
unfolding maximum_quality maximum_speed minimum_cost
pick c students index =
    if c == b'Q'
    then maximum_quality students index
    else if c == b'S'
    then maximum_speed students index
    else if c == b'C'
    then minimum_cost students index
    else index

-- `students[index].args` is written and `startWork` posted.
abbrev pub hire : Student → (c left : ℕ) → Student
hire s c left = record s { arg_c = c; arg_money = left; start_work = s.start_work + 1 }

-- `main_thread` from `*index` on: the student gets the homework, or the money is over. `none` is an
-- index out of bounds. When the money is over the source also posts `startWork` of every student, so
-- that those who wait leave; nobody takes work once `finished` is set, so the posts are left out.
pub give : Desk → (c : ℕ) (rest : List ℕ) (index : Option ℕ) → Option Desk
give d c rest index = index >>= λ i. get_elem? d.students i >>= λ s.
    let left = d.money - s.cost in
    some (
      if ltb d.money s.cost
      then record d { finished = true; index = some i; available = d.available - 1 }
      else record d {
        students = set d.students i (hire s c left);
        money = left;
        hw_queue = rest;
        available = d.available - 1;
        index = some i;
      })

serve : Desk → (hw_queue : List ℕ) → Option Desk
unfolding pick give
serve d [] = none
serve d (c ∷ rest) = if ltb 0 d.available then give d c rest (pick c d.students d.index) else none

-- One turn of `main_thread`; the step needs a homework in the queue and `available` above 0.
unfoldable pub dispatch : Desk → Option Desk
unfolding serve
dispatch d = serve d d.hw_queue

-- A student takes the homework.
abbrev pub begin : Student → Student
begin s = record s { start_work = s.start_work - 1; busy = true }

-- and hands it in.
abbrev pub hand_in : Student → Student
hand_in s = record s { balance = s.balance + s.cost; solved = s.solved + 1; busy = false }

-- The threads' steps.
pub data Step : Desk → Desk → Type 0 where
  -- `thread_h_handler` has read a character.
  append : (d : Desk) (c : ℕ) → Step d (record d { hw_queue = d.hw_queue ++ (c ∷ []) })
  -- A turn of `main_thread`.
  turn : (d e : Desk) → d.finished ≡ false → dispatch d ≡ some e → Step d e
  -- `thread_student_handler` up to `busy = 1`.
  started :
      (d : Desk) (i : ℕ) (s : Student)
      → d.finished ≡ false
      → get_elem? d.students i ≡ some s
      → s.busy ≡ false
      → 0 < s.start_work
      → Step d (record d { students = set d.students i (begin s) })
  -- `thread_student_handler` from there to the loop's end.
  solved :
      (d : Desk) (i : ℕ) (s : Student)
      → get_elem? d.students i ≡ some s
      → s.busy ≡ true
      → Step d (record d { students = set d.students i (hand_in s); available = d.available + 1 })
  -- `main_thread` at the end of the file, if the queue is empty. The waits for `eof` and for `finito`
  -- are left out: the model may close earlier than the program. The posts of `startWork` are left out
  -- as in `give`.
  closes : (d : Desk) → d.finished ≡ false → d.hw_queue ≡ [] → Step d (record d { finished = true })

-- `init_components`: nobody has work, `available` counts the students.
unfoldable pub Starts : (save_money : ℕ) → Desk → Type 0
Starts save_money d =
    (d.money ≡ save_money)
    × (d.available ≡ length d.students)
    × ((i : ℕ) (s : Student)
        → get_elem? d.students i ≡ some s
        → (s.busy ≡ false) × (s.start_work ≡ 0) × (s.balance ≡ 0) × (s.solved ≡ 0))

pub data Reach (save_money : ℕ) : Desk → Type 0 where
  start : (d : Desk) → Starts save_money d → Reach save_money d
  then_step : (d e : Desk) → Reach save_money d → Step d e → Reach save_money e

-- `totalCost` of `finishedOutput`.
unfoldable pub total_cost : List Student → ℕ
total_cost [] = 0
total_cost (s ∷ students) = s.balance + total_cost students
