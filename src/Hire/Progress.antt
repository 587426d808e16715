-- ===== src/Hire/Progress.antt =====
-- main_thread of HWs/HW4/main.c always finds a student.
use cse344_coursework.Base.{
  ℕ, suc, ◌<◌, ◌≡◌, refl, ap, ◌∙◌, true, false, Option, none, some, List, [], ◌∷◌, ltb,
  if◌then◌else◌, ◌>>=◌, get_elem?, All, arith, zero,
}
use mathlib.Core.Path.{subst}
use cse344_coursework.Hire.{Student, Desk, Reach, pick, give, serve, dispatch, int_min, greater}
use cse344_coursework.Hire.Choice.{
  maximum_quality-Optimal, maximum_speed-Optimal, minimum_cost-Optimal,
}
use cse344_coursework.Hire.Money.{Reach-free}

-- The letters of the homeworks.
pub data IsHomework : ℕ → Type 0 where
  quality : IsHomework b'Q'
  speed : IsHomework b'S'
  cost : IsHomework b'C'

-- The student's numbers are not the extreme ones.
abbrev pub IsOrdinary : Student → Type 0
IsOrdinary s =
    (greater s.quality int_min ≡ true) × (greater s.speed int_min ≡ true) × (s.cost < 2147483647)

got : (t : Student) {s : Student} → some t ≡ some s → t ≡ s
got t e = cc

IsOrdinary-some : (t s : Student) → IsOrdinary t → some t ≡ some s → IsOrdinary s
IsOrdinary-some t s h e = subst IsOrdinary (got t e) h

get_elem?-IsOrdinary :
    (students : List Student) (i : ℕ) (s : Student)
    → All IsOrdinary students
    → get_elem? students i ≡ some s
    → IsOrdinary s
get_elem?-IsOrdinary [] i s h e = cc
get_elem?-IsOrdinary (t ∷ students) zero s (h, hs) e = IsOrdinary-some t s h e
get_elem?-IsOrdinary (t ∷ students) (suc i) s (h, hs) e = get_elem?-IsOrdinary students i s hs e

Picks : (c : ℕ) → List Student → Option ℕ → Type 0
Picks c students index =
    (k : ℕ) × (s : Student) × (pick c students index ≡ some k) × (get_elem? students k ≡ some s)

pick-Picks :
    (c : ℕ) (students : List Student) (index : Option ℕ) (j : ℕ) (s : Student)
    → IsHomework c
    → IsOrdinary s
    → get_elem? students j ≡ some s
    → s.busy ≡ false
    → Picks c students index
unfolding pick Picks
pick-Picks c students index j s quality (q, v, p) e f =
    let (k, r, o) = maximum_quality-Optimal students index j s e f q in (k, o.student, r, o.at)
pick-Picks c students index j s speed (q, v, p) e f =
    let (k, r, o) = maximum_speed-Optimal students index j s e f v in (k, o.student, r, o.at)
pick-Picks c students index j s cost (q, v, p) e f =
    let (k, r, o) = minimum_cost-Optimal students index j s e f p in (k, o.student, r, o.at)

bind-some :
    {A B : Type 0} (o : Option A) (f : A → Option B) {a : A}
    → o ≡ some a
    → ((b : B) × (f a ≡ some b))
    → (b : B) × ((o >>= f) ≡ some b)
bind-some o f e (b, h) = (b, ap (λ x. x >>= f) e ∙ h)

give-some :
    (d : Desk) (c : ℕ) (rest : List ℕ) (index : Option ℕ) (k : ℕ) (s : Student)
    → index ≡ some k
    → get_elem? d.students k ≡ some s
    → (e : Desk) × (give d c rest index ≡ some e)
unfolding give
give-some d c rest index k s i g =
    bind-some index _ i (bind-some (get_elem? d.students k) _ g (_, refl))

posted :
    (d : Desk) (o : Option Desk) → 0 < d.available → (if ltb 0 d.available then o else none) ≡ o
posted d o a = ground arith

-- While `main_thread` goes on, a homework with a known letter is in the queue and `available` lets it
-- pass, its turn goes through: it finds a student, the index that it uses is set and in bounds. The
-- students' qualities and speeds are not INT_MIN and their costs are below INT_MAX.
pub Reach-dispatches :
    (save_money : ℕ) (d : Desk) (c : ℕ) (rest : List ℕ)
    → Reach save_money d
    → d.finished ≡ false
    → 0 < d.available
    → d.hw_queue ≡ c ∷ rest
    → IsHomework c
    → All IsOrdinary d.students
    → (e : Desk) × (dispatch d ≡ some e)
unfolding dispatch serve Picks
Reach-dispatches m d c rest r f a q h o =
    let (i, s, g, b, _) = Reach-free m d r f a in
    let (k, t, p, at) =
      pick-Picks c d.students d.index i s h (get_elem?-IsOrdinary d.students i s o g) g b in
    let (e, given) = give-some d c rest (pick c d.students d.index) k t p at in
    (e, ap (serve d) q ∙ posted d (give d c rest (pick c d.students d.index)) a ∙ given)
