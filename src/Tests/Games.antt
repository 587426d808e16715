-- ===== src/Tests/Games.antt =====
-- The hot potato with two processes.
use cse344_coursework.Base.{
  ◌-◌, ◌≤◌, ◌≡◌, refl, true, false, some, List, [], ◌∷◌, Bytes, codes, set, arith,
}
use cse344_coursework.Tokens.Join.{terminated}
use cse344_coursework.Lines.{fgets_lines}
use cse344_coursework.Potato.{
  Process, Game, Reach, here, next, enter, sends, register, receive, gpi_with_pid, starts_hot,
  check_potato_finish,
}
use cse344_coursework.Potato.Outcome.{Reach-not_finished, Reach-receive}

abbrev names : List Bytes
names = codes "a" ∷ codes "b" ∷ []

abbrev fifo_file : Bytes
fifo_file = terminated b'\n' names

abbrev first : Process
first = record { id = 7; cool_down = 2; fifoname = codes "a" }

abbrev second : Process
second = record { id = 8; cool_down = 0; fifoname = codes "b" }

abbrev one_entered : Game
one_entered = record {
  procs = first ∷ [];
  filled = false;
  ready = 7 ∷ [];
  flight = [];
  dealt = 2 ∷ [];
  struck = false;
}

one_entered-Reach : Reach fifo_file 2 one_entered
unfolding register gpi_with_pid fgets_lines
one_entered-Reach = next here (enter 7 2 refl tt tt)

abbrev both_entered : Game
both_entered = record {
  procs = first ∷ second ∷ [];
  filled = true;
  ready = 8 ∷ 7 ∷ [];
  flight = [];
  dealt = 2 ∷ 0 ∷ [];
  struck = false;
}

both_entered-Reach : Reach fifo_file 2 both_entered
unfolding register gpi_with_pid fgets_lines
both_entered-Reach = next one_entered-Reach (enter 8 0 refl ((λ e. omega (arith, e)), tt) tt)

abbrev sent : Game
sent = record both_entered { ready = 8 ∷ []; flight = 7 ∷ [] }

sent-Reach : Reach fifo_file 2 sent
unfolding starts_hot gpi_with_pid
sent-Reach = next both_entered-Reach (sends (8 ∷ []) [] 7 refl refl refl)

Reach-not_finished_example : check_potato_finish sent.procs ≡ false
Reach-not_finished_example = Reach-not_finished fifo_file 2 sent 0 2 sent-Reach refl (omega arith)

Reach-receive_example :
    (p : Process) × (p.id ≡ 7)
    × (1 ≤ p.cool_down)
    × (receive sent.procs 7
        ≡ some
            (set sent.procs (gpi_with_pid sent.procs 7) (record p { cool_down = p.cool_down - 1 })))
Reach-receive_example = Reach-receive fifo_file 2 sent [] [] 7 sent-Reach refl refl
