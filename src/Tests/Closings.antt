-- ===== src/Tests/Closings.antt =====
-- The end of the hiring program for small homework files.
use cse344_coursework.Base.{◌+◌, ◌≡◌, refl, true, false, arith}
use cse344_coursework.Hire.Closing.{
  Office, Step, reads, reads_eof, gives, no_more, closes, begins, drops, solves, Reach, here, next,
  opening, finish_work, at_finito, closed, Reach-closed,
}
use cse344_coursework.Hire.Closing.Hanging.{can_hang}

-- Of two homeworks one is handed in before the other student begins: finito is posted, and the
-- second homework is left behind.
abbrev one_dropped_1 : Office
one_dropped_1 = record (opening 2) { unread = 1; queue = 1; wait_file = 1 }

one_dropped_1-Reach : Reach 2 one_dropped_1
one_dropped_1-Reach = next here (reads refl (omega arith))

abbrev one_dropped_2 : Office
one_dropped_2 = record one_dropped_1 { unread = 0; queue = 2; wait_file = 2 }

one_dropped_2-Reach : Reach 2 one_dropped_2
one_dropped_2-Reach = next one_dropped_1-Reach (reads refl (omega arith))

abbrev one_dropped_3 : Office
one_dropped_3 = record one_dropped_2 { reading = false; eof = true; wait_file = 3 }

one_dropped_3-Reach : Reach 2 one_dropped_3
one_dropped_3-Reach = next one_dropped_2-Reach (reads_eof refl refl)

abbrev one_dropped_4 : Office
one_dropped_4 = record one_dropped_3 { queue = 1; wait_file = 2; given = 1 }

one_dropped_4-Reach : Reach 2 one_dropped_4
one_dropped_4-Reach = next one_dropped_3-Reach (gives refl (omega arith) (omega arith))

abbrev one_dropped_5 : Office
one_dropped_5 = record one_dropped_4 { queue = 0; wait_file = 1; given = 2 }

one_dropped_5-Reach : Reach 2 one_dropped_5
one_dropped_5-Reach = next one_dropped_4-Reach (gives refl (omega arith) (omega arith))

abbrev one_dropped_6 : Office
one_dropped_6 = record one_dropped_5 { given = 1; live = 1 }

one_dropped_6-Reach : Reach 2 one_dropped_6
one_dropped_6-Reach = next one_dropped_5-Reach (begins (omega arith) refl)

abbrev one_dropped_7 : Office
one_dropped_7 = record one_dropped_6 { live = 0; finito = 1; solved = 1 }

one_dropped_7-Reach : Reach 2 one_dropped_7
unfolding finish_work
one_dropped_7-Reach = next one_dropped_6-Reach (solves (omega arith))

abbrev one_dropped_8 : Office
one_dropped_8 = record one_dropped_7 { wait_file = 0; main = at_finito }

one_dropped_8-Reach : Reach 2 one_dropped_8
one_dropped_8-Reach = next one_dropped_7-Reach (no_more refl (omega arith) refl refl)

abbrev one_dropped_9 : Office
one_dropped_9 = record one_dropped_8 { finito = 0; finished = true; main = closed }

one_dropped_9-Reach : Reach 2 one_dropped_9
one_dropped_9-Reach = next one_dropped_8-Reach (closes refl (omega arith))

abbrev one_dropped : Office
one_dropped = record one_dropped_9 { given = 0; dropped = 1 }

one_dropped-Reach : Reach 2 one_dropped
one_dropped-Reach = next one_dropped_9-Reach (drops (omega arith) refl)

Reach-closed_example :
    (one_dropped.unread ≡ 0)
    × (one_dropped.queue ≡ 0)
    × (one_dropped.given + one_dropped.live + one_dropped.solved + one_dropped.dropped ≡ 2)
Reach-closed_example = Reach-closed 2 one_dropped one_dropped-Reach refl refl

can_hang_example :
    (o : Office) × Reach 3 o × (o.main ≡ at_finito) × (o.solved ≡ 3) × ((p : Office) → ¬ Step o p)
can_hang_example = can_hang 3
