-- ===== src/Tests/Signals.antt =====
-- The signals of HWs/HW2/main.c with one child.
use cse344_coursework.Base.{◌≤◌, ◌≡◌, ◌⊎◌, refl, false, [], ◌∷◌}
use cse344_coursework.Poly.Signals.{
  waiting, resting, sends_first, System, at_place, Step, ends_first, hears_first, answers,
  kills_first, hears, Reach, start, next, Run, at_start, one_more, printed,
}
use cse344_coursework.Poly.Signals.Phases.{Reach-between}
use cse344_coursework.Poly.Signals.Ending.{Run-ends}

-- The child has answered, and the parent has heard it.
abbrev heard : System
heard = record { parent = sends_first 1; usr2 = false; children = at_place resting false ∷ [] }

heard-Reach : Reach 1 heard
heard-Reach =
    next
      (next
        (next
          (next (next start (ends_first 0 false refl))
            (kills_first 0 (at_place waiting false) refl refl))
          (hears_first 0 refl))
        (answers 0 false refl))
      (hears 0 refl refl)

Reach-between_example : (resting ≡ resting) × (false ≡ false)
Reach-between_example = Reach-between 1 heard 0 (at_place resting false) heard-Reach refl refl

heard-Run : Run 1 5 heard
heard-Run =
    one_more
      (one_more
        (one_more
          (one_more (one_more at_start (ends_first 0 false refl))
            (kills_first 0 (at_place waiting false) refl refl))
          (hears_first 0 refl))
        (answers 0 false refl))
      (hears 0 refl refl)

Run-ends_example : (5 ≤ 10) × ((heard.parent ≡ printed) ⊎ ((u : System) × Step heard u))
Run-ends_example = Run-ends 1 5 heard heard-Run
