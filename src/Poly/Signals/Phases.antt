-- ===== src/Poly/Signals/Phases.antt =====
-- What the signals of HWs/HW2/main.c give: the rounds do not overlap, and no signal is lost.
use cse344_coursework.Base.{
  ℕ, suc, zero, ◌+◌, ◌≤◌, ◌<◌, ◌≡◌, ◌≢◌, ◌⊎◌, inl, inr, refl, ap, ◌∙◌, Bool, true, false, some,
  List, [], ◌∷◌, get_elem?, length, replicate, arith, get_elem?-some, get_elem?-lt,
}
use mathlib.Core.Path.{subst}
use cse344_coursework.Poly.Signals.{
  Place, first_round, waiting, told, resting, second_round, ended, Child, Parent, sends_first,
  suspended, sends_second, printed, System, at_place, AllEnded, Step, ends_first, hears_first,
  answers, hears_second, ends, kills_first, hears, prints_first, kills_second, prints_second, Reach,
  start, next,
}
use cse344_coursework.Poly.Signals.Protocol.{
  Fresh, Rested, Answers, Later, Inv, lt_cases, Every-at, Quiet-at,
}
use cse344_coursework.Poly.Signals.Order.{Step-Inv}

get_elem?-replicate : (n k : ℕ) (a c : Child) → get_elem? (replicate n a) k ≡ some c → a ≡ c
get_elem?-replicate zero k a c e = cc
get_elem?-replicate (suc n) zero a c e = cc
get_elem?-replicate (suc n) (suc k) a c e = get_elem?-replicate n k a c e

length-replicate : (n : ℕ) (a : Child) → length (replicate n a) ≡ n
length-replicate zero a = refl
length-replicate (suc n) a = ap suc (length-replicate n a)

start-Inv :
    (n : ℕ)
    → Inv n (record {
      parent = sends_first 0;
      usr2 = false;
      children = replicate n (at_place first_round false);
    })
start-Inv n = record {
  each = λ k c e.
      let same = get_elem?-replicate n k (at_place first_round false) c e in
      subst (λ d. (k < 0 → Rested d.place d.usr1) × (0 ≤ k → Fresh false d.place d.usr1)) same
        ((λ l. absurd (omega (arith, l))), λ _. refl);
  quiet = (refl, omega arith);
  count = length-replicate n (at_place first_round false);
}

pub Reach-Inv : {n : ℕ} {s : System} → Reach n s → Inv n s
Reach-Inv start = start-Inv _
Reach-Inv (next r st) = Step-Inv _ _ st (Reach-Inv r)

Rested-place : (place : Place) (u : Bool) → Rested place u → (place ≡ resting) × (u ≡ false)
Rested-place resting u h = (refl, h)
Rested-place first_round u h = absurd h
Rested-place waiting u h = absurd h
Rested-place told u h = absurd h
Rested-place second_round u h = absurd h
Rested-place ended u h = absurd h

-- When the parent reads the file for the first error, every child is behind its first round, has not
-- begun its second one, and has no signal pending that would let it.
pub Reach-between :
    (n : ℕ) (s : System) (k : ℕ) (c : Child)
    → Reach n s
    → s.parent ≡ sends_first (length s.children)
    → get_elem? s.children k ≡ some c
    → (c.place ≡ resting) × (c.usr1 ≡ false)
Reach-between n s k c r at e =
    let inv = Reach-Inv r in
    let (off, bound) = Quiet-at inv at in
    Rested-place c.place c.usr1 ((Every-at inv at off k c e).0 (get_elem?-lt s.children k e))

-- A step of a child that has not ended, if the parent waits for it.
Answers-moves :
    (s : System) (k : ℕ) (place : Place) (u : Bool)
    → get_elem? s.children k ≡ some (at_place place u)
    → Answers place u
    → (t : System) × Step s t
Answers-moves s k first_round u e h = (_, ends_first k u e)
Answers-moves s k waiting u e h = (_, hears_first k (e ∙ ap (λ v. some (at_place waiting v)) h))
Answers-moves s k told u e h = (_, answers k u e)
Answers-moves s k resting u e h = absurd h
Answers-moves s k second_round u e h = absurd h
Answers-moves s k ended u e h = absurd h

Later-moves :
    (s : System) (k : ℕ) (place : Place) (u : Bool)
    → get_elem? s.children k ≡ some (at_place place u)
    → Later place u
    → (place ≡ ended) ⊎ ((t : System) × Step s t)
Later-moves s k resting u e h = inr (_, hears_second k (e ∙ ap (λ v. some (at_place resting v)) h))
Later-moves s k second_round u e h = inr (_, ends k u e)
Later-moves s k ended u e h = inl refl
Later-moves s k first_round u e h = absurd h
Later-moves s k waiting u e h = absurd h
Later-moves s k told u e h = absurd h

-- All children have ended, or one of them can do a step.
last_moves :
    (s : System) (cs : List Child) (i : ℕ)
    → ((k : ℕ) (c : Child)
        → get_elem? cs k ≡ some c
        → (get_elem? s.children (i + k) ≡ some c) × Later c.place c.usr1)
    → AllEnded cs ⊎ ((t : System) × Step s t)
last_moves s [] i h = inl tt
last_moves s (c ∷ cs) i h =
    let (here, later) = h 0 c refl in
    elim (Later-moves s i c.place c.usr1 (ap (λ j. get_elem? s.children j) (omega arith) ∙ here)
      later) [
        | inr step ↦ inr step
        | inl over ↦
            elim (last_moves s cs (i + 1) (λ k d e.
              let (there, l) = h (suc k) d e in
              (ap (λ j. get_elem? s.children j) (omega arith) ∙ there, l))) [
                | inr step ↦ inr step
                | inl all ↦ inl (over, all)
              ]
      ]

moves_at :
    (n : ℕ) (s : System) (p : Parent) (v : Bool)
    → Inv n s
    → s.parent ≡ p
    → s.usr2 ≡ v
    → p ≢ printed
    → (t : System) × Step s t
moves_at n s (sends_first i) v inv at off going = elim (lt_cases i (length s.children)) [
  | inl l ↦ let (c, e) = get_elem?-some s.children i l in (_, kills_first i c at e)
  | inr l ↦
      let (_, bound) = Quiet-at inv at in
      let last : i ≡ length s.children = omega (arith, l, bound, inv.count) in
      (_, prints_first (at ∙ ap sends_first last))
]
moves_at n s (suspended i) true inv at on going = (_, hears i at on)
moves_at n s (suspended i) false inv at off going =
    let (c, e) = get_elem?-some s.children i (omega (arith, Quiet-at inv at, inv.count)) in
    Answers-moves s i c.place c.usr1 e ((Every-at inv at off i c e).2 refl)
moves_at n s (sends_second i) v inv at off going = elim (lt_cases i (length s.children)) [
  | inl l ↦ let (c, e) = get_elem?-some s.children i l in (_, kills_second i c at e)
  | inr l ↦
      let (_, bound) = Quiet-at inv at in
      let last : i ≡ length s.children = omega (arith, l, bound, inv.count) in
      elim (last_moves s s.children 0 (λ k c e. (
        ap (λ j. get_elem? s.children j) (omega arith) ∙ e,
        (Every-at inv at off k c e).0 (omega (arith, get_elem?-lt s.children k e, last)),
      ))) [ inl all ↦ (_, prints_second (at ∙ ap sends_second last) all) | inr step ↦ step ]
]
moves_at n s printed v inv at off going = absurd (going refl)

-- No signal is lost: until the parent has printed the second error, the parent or a child can go on.
pub Reach-moves : (n : ℕ) (s : System) → Reach n s → s.parent ≢ printed → (t : System) × Step s t
Reach-moves n s r going = moves_at n s s.parent s.usr2 (Reach-Inv r) refl refl going
