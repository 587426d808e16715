-- ===== src/Tests/Clinics.antt =====
-- The clinic with three citizens and a buffer of four places.
use cse344_coursework.Base.{ℕ, false, refl, ◌≡◌, some, List, [], ◌∷◌, codes, arith}
use cse344_coursework.Options.{Opt, opt, is_not_a_number}
use cse344_coursework.Options.Clinic as Line
use cse344_coursework.Tests.CommandLines.{atoi}
use cse344_coursework.Clinic.Doses.{occurrences}
use cse344_coursework.Clinic.Staff.{
  Clinic, needs, opened, Moves, here, next, comes_in, IsClosed, AllGone,
}
use cse344_coursework.Clinic.Leaving.{leave_unvaccinated}
use cse344_coursework.Clinic.Closing.{never_closes}
use cse344_coursework.Clinic.Opening.{accepted_can_close}

abbrev six : List ℕ
six = b'1' ∷ b'1' ∷ b'2' ∷ b'2' ∷ b'1' ∷ b'2' ∷ []

-- One citizen has come in.
abbrev begun : Clinic
unfolding opened
begun = record (opened 3 1 4 six) {
  buffer = record ((opened 3 1 4 six).buffer) { m_citizen = 1 };
  citizens = needs 1 ∷ needs 0 ∷ needs 1 ∷ [];
}

begun-Moves : (n v : ℕ) → Moves n v 3 (opened 3 1 4 six) begun
unfolding opened
begun-Moves n v = next here (comes_in 1 0 refl)

abbrev small_line : List Opt
small_line =
    opt b'n' (codes "2")
    ∷ opt b'v' (codes "2")
    ∷ opt b'c' (codes "3")
    ∷ opt b'b' (codes "4")
    ∷ opt b't' (codes "1")
    ∷ opt b'i' (codes "vaccines")
    ∷ []

abbrev small : Line.Clinic
small = record {
  nurses = 2;
  vaccinators = 2;
  citizens = 3;
  buffer = 4;
  dose = 1;
  input = codes "vaccines";
}

small_accepted : Line.set_opts_and_args atoi false small_line ≡ some small
unfolding Line.set_opts_and_args is_not_a_number Line.int_less
small_accepted = refl

accepted_can_close_example : (e : Clinic) × Moves 2 2 3 begun e × IsClosed 2 2 3 3 e
unfolding occurrences
accepted_can_close_example =
    accepted_can_close atoi false small_line small six begun small_accepted (omega arith)
      (omega arith) refl refl (begun-Moves 2 2)

never_closes_example : ¬ IsClosed 5 1 3 3 begun
never_closes_example = never_closes 5 1 3 1 4 six begun (omega arith) (begun-Moves 5 1)

leave_unvaccinated_example :
    (e : Clinic) × Moves 2 1 3 (opened 3 1 4 six) e
    × AllGone e.citizens
    × (e.dead_citizen ≡ 3)
    × (e.buffer.total_applied_dose ≡ 0)
leave_unvaccinated_example = leave_unvaccinated 2 1 3 1 4 six
