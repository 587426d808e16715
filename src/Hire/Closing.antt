-- ===== src/Hire/Closing.antt =====
-- How HWs/HW4/main.c comes to its end: thread_h_handler, the waits of main_thread and the part of
-- thread_student_handler that posts finito, by the numbers of homeworks. The choice of a student is left
-- out (Hire has it); that the money is over may happen wherever the code tests it. There is no SIGINT.
use mathlib.Core.Path.{subst}
use cse344_coursework.Base.{
  ℕ, zero, suc, ◌+◌, ◌-◌, ◌<◌, ◌≤◌, ◌≡◌, ◌⊎◌, refl, ◌∙◌, ap, Bool, true, false, ◌&&◌, ◌==◌,
  if◌then◌else◌, arith,
}
pub mod Hanging

-- Where the main thread is: in its loop, at `sem_wait(&finito)`, behind it.
pub data Main : Type 0 where
  loops : Main
  at_finito : Main
  closed : Main

-- `unread` characters are left in the file; `reading` as long as thread_h_handler runs. `given`
-- counts the posts of `startWork` that nobody has taken, `live` is `liveThreadNum`; `solved` and
-- `dropped` count homeworks that were handed in, and that a thread left behind when it found
-- `finished`. `over` is set when a thread has found that the money is over; it is not a variable of the
-- program.
pub record Office : Type 0 where
  pub unread : ℕ
  pub reading : Bool
  pub eof : Bool
  pub queue : ℕ
  pub wait_file : ℕ
  pub given : ℕ
  pub live : ℕ
  pub finito : ℕ
  pub finished : Bool
  pub main : Main
  pub solved : ℕ
  pub dropped : ℕ
  pub over : Bool

-- `curEof && ArrayList_isEmpty(hw_queue) && (liveThreadNum == 0)`
abbrev pub is_last : Office → Bool
is_last o = o.eof && (o.queue == 0) && (o.live == 0)

-- The end of a student's work: the count goes down, and finito is posted if it was the last one.
unfoldable pub finish_work : Office → Office
finish_work o =
    let done = record o { live = o.live - 1; solved = o.solved + 1 } in
    if is_last done then record done { finito = done.finito + 1 } else done

pub data Step (o : Office) : Office → Type 0 where
  reads :
      o.reading ≡ true
      → 0 < o.unread
      → Step o
          (record o { unread = o.unread - 1; queue = o.queue + 1; wait_file = o.wait_file + 1 })
  reads_eof :
      o.reading ≡ true
      → o.unread ≡ 0
      → Step o (record o { reading = false; eof = true; wait_file = o.wait_file + 1 })
  -- `if (!moneyRet) break;`: the character that was read is not appended.
  reads_broke :
      o.reading ≡ true
      → 0 < o.unread
      → Step o (record o {
        unread = o.unread - 1;
        reading = false;
        wait_file = o.wait_file + 1;
        over = true;
      })
  gives :
      o.main ≡ loops
      → 0 < o.wait_file
      → 0 < o.queue
      → Step o (record o { wait_file = o.wait_file - 1; queue = o.queue - 1; given = o.given + 1 })
  no_more :
      o.main ≡ loops
      → 0 < o.wait_file
      → o.eof ≡ true
      → o.queue ≡ 0
      → Step o (record o { wait_file = o.wait_file - 1; main = at_finito })
  closes :
      o.main ≡ at_finito
      → 0 < o.finito
      → Step o (record o { finito = o.finito - 1; finished = true; main = closed })
  -- "Money is over, closing": the posts of `startWork` that follow give no work. If the queue is empty,
  -- the letter is the one before.
  runs_out :
      o.main ≡ loops
      → 0 < o.wait_file
      → ((o.eof ≡ false) ⊎ (0 < o.queue))
      → Step o
          (record o { wait_file = o.wait_file - 1; finished = true; main = closed; over = true })
  begins :
      0 < o.given
      → o.finished ≡ false
      → Step o (record o { given = o.given - 1; live = o.live + 1 })
  drops :
      0 < o.given
      → o.finished ≡ true
      → Step o (record o { given = o.given - 1; dropped = o.dropped + 1 })
  solves : 0 < o.live → Step o (finish_work o)

-- A file of `n` homeworks.
abbrev pub opening : (n : ℕ) → Office
opening n = record {
  unread = n;
  reading = true;
  eof = false;
  queue = 0;
  wait_file = 0;
  given = 0;
  live = 0;
  finito = 0;
  finished = false;
  main = loops;
  solved = 0;
  dropped = 0;
  over = false;
}

pub data Reach (n : ℕ) : Office → Type 0 where
  here : Reach n (opening n)
  next : {o p : Office} → Reach n o → Step o p → Reach n p

abbrev is_closed : Main → Bool
is_closed loops = false
is_closed at_finito = false
is_closed closed = true

abbrev is_looping : Main → Bool
is_looping loops = true
is_looping at_finito = false
is_looping closed = false

record Inv (n : ℕ) (o : Office) : Type 0 where
  all_there : o.unread + o.queue + o.given + o.live + o.solved + o.dropped ≡ n
  file_read : o.eof ≡ true → o.unread ≡ 0
  reader : o.reading ≡ true → o.eof ≡ false
  behind_loop : is_looping o.main ≡ false → o.eof ≡ true
  emptied : is_looping o.main ≡ false → o.queue ≡ 0
  posted : 0 < o.finito → 0 < o.solved
  was_posted : is_closed o.main ≡ true → 0 < o.solved
  not_dropped : o.finished ≡ false → o.dropped ≡ 0
  finishes : is_closed o.main ≡ o.finished

finish_work-over : (o : Office) → o.over ≡ (finish_work o).over
unfolding finish_work
finish_work-over o = ground arith

Step-Inv : {n : ℕ} {o p : Office} → Step o p → (o.over ≡ false → Inv n o) → p.over ≡ false → Inv n p
unfolding finish_work
Step-Inv (reads r u) h out = let v = h out in ground arith
Step-Inv (reads_eof r u) h out = let v = h out in ground arith
Step-Inv (reads_broke r u) h out = cc
Step-Inv (gives m w q) h out = let v = h out in ground (arith, ap is_looping m)
Step-Inv (no_more m w e q) h out = let v = h out in ground (arith, ap is_looping m, ap is_closed m)
Step-Inv (closes m f) h out = let v = h out in ground (arith, ap is_looping m, ap is_closed m)
Step-Inv (runs_out m w q) h out = cc
Step-Inv (begins g f) h out = let v = h out in ground arith
Step-Inv (drops g f) h out = let v = h out in ground arith
Step-Inv {o = o} (solves l) h out = let v = h (finish_work-over o ∙ out) in ground arith

Reach-Inv : {n : ℕ} {o : Office} → Reach n o → o.over ≡ false → Inv n o
Reach-Inv here out = ground arith
Reach-Inv (next r st) out = Step-Inv st (Reach-Inv r) out

-- When the main thread has closed, and the money was never over, the file is read and the queue empty,
-- and every homework was handed in, is with a student, or was left behind.
pub Reach-closed :
    (n : ℕ) (o : Office)
    → Reach n o
    → o.over ≡ false
    → o.main ≡ closed
    → (o.unread ≡ 0) × (o.queue ≡ 0) × (o.given + o.live + o.solved + o.dropped ≡ n)
Reach-closed n o r out c =
    let v = Reach-Inv r out in
    ground (arith, ap is_looping c, v.all_there, v.file_read, v.behind_loop, v.emptied)
