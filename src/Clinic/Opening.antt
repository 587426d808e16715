-- ===== src/Clinic/Opening.antt =====
-- The clinic of Midterm/main.c behind its command line (Midterm/getopt.c).
use cse344_coursework.Base.{ℕ, ◌*◌, ◌≤◌, ◌<◌, ◌^◌, ◌+◌, ◌≡◌, Bool, some, List, Bytes, arith}
use cse344_coursework.Options.{Opt}
use cse344_coursework.Options.Clinic as Line
use cse344_coursework.Clinic.Doses.{occurrences}
use cse344_coursework.Clinic.Staff.{Clinic, opened, Moves, IsClosed}
use cse344_coursework.Clinic.Closing.{can_close}

-- With a command line that is accepted, whose numbers' t * c + 1 fits in an int, not more nurses than
-- places in the buffer, and a file with exactly as many vaccines of each kind as the citizens need, the
-- clinic never gets into a state without SIGINT
-- from which its processes cannot go on so that all of them end, every dose given.
pub accepted_can_close :
    (atoi : Bytes → ℕ) (extra : Bool) (opts : List Opt) (k : Line.Clinic) (input : List ℕ)
    (s : Clinic)
    → Line.set_opts_and_args atoi extra opts ≡ some k
    → k.dose * k.citizens + 1 < 2 ^ 31
    → k.nurses ≤ k.buffer
    → occurrences b'1' input ≡ k.citizens * k.dose
    → occurrences b'2' input ≡ k.citizens * k.dose
    → Moves k.nurses k.vaccinators (k.citizens * k.dose) (opened k.citizens k.dose k.buffer input) s
    → (e : Clinic) × Moves k.nurses k.vaccinators (k.citizens * k.dose) s e
      × IsClosed k.nurses k.vaccinators (k.citizens * k.dose) k.citizens e
accepted_can_close atoi extra opts k input s run fits few o1 o2 ms =
    let m = Line.set_opts_and_args-MayOpen atoi extra opts k run in
    can_close k.nurses k.vaccinators k.citizens k.dose k.buffer input s
      (m.nurses_two, few, omega (arith, m.vaccinators_two), grind (arith, m.buffer_room fits)) o1 o2
      ms
