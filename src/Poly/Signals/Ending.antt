-- ===== src/Poly/Signals/Ending.antt =====
-- The processes of HWs/HW2/main.c come to an end.
use cse344_coursework.Base.{
  ℕ, suc, zero, ◌+◌, ◌-◌, ◌*◌, ◌<◌, ◌≤◌, ◌≡◌, ◌≢◌, ◌⊎◌, inl, inr, refl, replicate, ap, true, false,
  some, List, [], ◌∷◌, get_elem?, set, arith, get_elem?-lt,
}
use cse344_coursework.Poly.Signals.{
  Place, first_round, waiting, told, resting, second_round, ended, Child, Parent, sends_first,
  suspended, sends_second, printed, System, at_place, Step, ends_first, hears_first, answers,
  hears_second, ends, kills_first, hears, prints_first, kills_second, prints_second, Reach, start,
  next, Run, at_start, one_more,
}
use cse344_coursework.Poly.Signals.Protocol.{Quiet-at}
use cse344_coursework.Poly.Signals.Phases.{Reach-Inv, Reach-moves}

-- The steps that a child has before it.
abbrev pub steps_left : Place → ℕ
steps_left first_round = 5
steps_left waiting = 4
steps_left told = 3
steps_left resting = 2
steps_left second_round = 1
steps_left ended = 0

abbrev pub all_left : List Child → ℕ
all_left [] = 0
all_left (c ∷ cs) = steps_left c.place + all_left cs

all_left-set :
    (cs : List Child) (k : ℕ) (old new : Child)
    → get_elem? cs k ≡ some old
    → all_left (set cs k new) + steps_left old.place ≡ all_left cs + steps_left new.place
all_left-set [] k old new e = cc
all_left-set (c ∷ cs) zero old new e =
    let same : c ≡ old = cc in
    let stage : steps_left c.place ≡ steps_left old.place =
      ap (λ (d : Child). steps_left d.place) same in
    omega (arith, stage)
all_left-set (c ∷ cs) (suc k) old new e = omega (arith, all_left-set cs k old new e)

-- The steps that the parent of `n` children has before it.
abbrev pub parent_left : ℕ → Parent → ℕ
parent_left n (sends_first i) = 2 * (n - i) + n + 2
parent_left n (suspended i) = 2 * (n - i) + n + 1
parent_left n (sends_second i) = n - i + 1
parent_left n printed = 0

abbrev pub left : ℕ → System → ℕ
left n s = parent_left n s.parent + all_left s.children

Reach-lessens : (n : ℕ) (s t : System) → Reach n s → Step s t → left n t < left n s
Reach-lessens n s t r (ends_first k u e) =
    omega (arith, all_left-set s.children k (at_place first_round u) (at_place waiting u) e)
Reach-lessens n s t r (hears_first k e) =
    omega (arith, all_left-set s.children k (at_place waiting true) (at_place told false) e)
Reach-lessens n s t r (answers k u e) =
    omega (arith, all_left-set s.children k (at_place told u) (at_place resting u) e)
Reach-lessens n s t r (hears_second k e) =
    omega (arith, all_left-set s.children k (at_place resting true) (at_place second_round false) e)
Reach-lessens n s t r (ends k u e) =
    omega (arith, all_left-set s.children k (at_place second_round u) (at_place ended u) e)
Reach-lessens n s t r (kills_first i c at e) =
    omega (arith, ap (parent_left n) at, all_left-set s.children i c (record c { usr1 = true }) e)
Reach-lessens n s t r (hears i at on) =
    omega (arith, ap (parent_left n) at, Quiet-at (Reach-Inv r) at)
Reach-lessens n s t r (prints_first at) = omega (arith, ap (parent_left n) at, (Reach-Inv r).count)
Reach-lessens n s t r (kills_second i c at e) = omega (
  arith,
  ap (parent_left n) at,
  (Reach-Inv r).count,
  get_elem?-lt s.children i e,
  all_left-set s.children i c (record c { usr1 = true }) e,
)
Reach-lessens n s t r (prints_second at all) = omega (arith, ap (parent_left n) at)

is_printed-cases : (p : Parent) → (p ≡ printed) ⊎ (p ≢ printed)
is_printed-cases (sends_first i) = inr (λ e. cc)
is_printed-cases (suspended i) = inr (λ e. cc)
is_printed-cases (sends_second i) = inr (λ e. cc)
is_printed-cases printed = inl refl

all_left-start : (n : ℕ) → all_left (replicate n (at_place first_round false)) ≡ 5 * n
all_left-start zero = refl
all_left-start (suc n) = omega (arith, all_left-start n)

Run-Reach : {n k : ℕ} {t : System} → Run n k t → Reach n t
Run-Reach at_start = start
Run-Reach (one_more r s) = next (Run-Reach r) s

Run-left : (n k : ℕ) (t : System) → Run n k t → k + left n t ≤ 8 * n + 2
Run-left n k t at_start = omega (arith, all_left-start n)
Run-left n _ t (one_more {s = s} r step) =
    omega (arith, Run-left n _ s r, Reach-lessens n s t (Run-Reach r) step)

-- No signal is lost: a run of the parent with `n` children has at most 8 n + 2 steps, in whichever
-- order they go on, and can go on until the parent has printed the second error.
pub Run-ends :
    (n k : ℕ) (t : System)
    → Run n k t
    → (k ≤ 8 * n + 2) × ((t.parent ≡ printed) ⊎ ((u : System) × Step t u))
Run-ends n k t r = (
  omega (arith, Run-left n k t r),
  elim (is_printed-cases t.parent) [
    | inl e ↦ inl e
    | inr ne ↦ inr (Reach-moves n t (Run-Reach r) ne)
  ],
)
