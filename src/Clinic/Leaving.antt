-- ===== src/Clinic/Leaving.antt =====
-- citizenChild of Midterm/main.c waits for no vaccinator.
use cse344_coursework.Base.{ℕ, zero, suc, ◌+◌, ◌*◌, ◌<◌, ◌≡◌, inl, inr, refl, List, set, arith}
use cse344_coursework.Clinic.Census.{needed, lives, total, total-set, Moves-Staffed, opened-Staffed}
use cse344_coursework.Clinic.Rounds.{one_lives, AllGone-lives}
use cse344_coursework.Clinic.Closing.{Moves-trans}
use cse344_coursework.Clinic.Staff.{
  needs, gone, Clinic, comes_in, leaves, opened, Moves, here, next, AllGone,
}

module _ (n v all : ℕ) where
  abbrev Leave : Clinic → Type 0
  Leave s =
      (e : Clinic) × Moves n v all s e
      × AllGone e.citizens
      × (e.buffer.total_applied_dose ≡ s.buffer.total_applied_dose)

  -- The citizens alone can all leave.
  all-Leave : (k : ℕ) (s : Clinic) → total needed s.citizens + total lives s.citizens < k → Leave s
  all-Leave zero s h = absurd (omega (arith, h))
  all-Leave (suc k) s h = elim (one_lives s.citizens) [
    | inl g ↦ (s, here, g, refl)
    | inr (j, zero, e) ↦
        let (d, ms, g, same) =
          all-Leave k
            (record s { citizens = set s.citizens j gone; dead_citizen = s.dead_citizen + 1 })
            (omega (
              arith,
              h,
              total-set needed s.citizens j (needs zero) gone e,
              total-set lives s.citizens j (needs zero) gone e,
            )) in
        (d, Moves-trans (next here (leaves j e)) ms, g, same)
    | inr (j, suc i, e) ↦
        let (d, ms, g, same) =
          all-Leave k
            (record s {
              buffer = record (s.buffer) { m_citizen = s.buffer.m_citizen + 1 };
              citizens = set s.citizens j (needs i);
            })
            (omega (
              arith,
              h,
              total-set needed s.citizens j (needs (suc i)) (needs i) e,
              total-set lives s.citizens j (needs (suc i)) (needs i) e,
            )) in
        (d, Moves-trans (next here (comes_in j i e)) ms, g, same)
  ]

-- A citizen does not wait until it is vaccinated: whatever the numbers are, all citizens can leave the
-- clinic, which counts them as vaccinated, before the first dose is given.
pub leave_unvaccinated :
    (n v c t size : ℕ) (input : List ℕ)
    → (e : Clinic) × Moves n v (c * t) (opened c t size input) e
      × AllGone e.citizens
      × (e.dead_citizen ≡ c)
      × (e.buffer.total_applied_dose ≡ 0)
unfolding opened
leave_unvaccinated n v c t size input =
    let s = opened c t size input in
    let (e, ms, g, none) =
      all-Leave n v (c * t) (suc (total needed s.citizens + total lives s.citizens)) s
        (omega arith) in
    let k = Moves-Staffed ms (opened-Staffed n v c t size input) in
    (e, ms, g, omega (arith, k.counted, AllGone-lives e.citizens g), none)
