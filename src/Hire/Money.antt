-- ===== src/Hire/Money.antt =====
-- Where the money of HWs/HW4/main.c goes.
use cse344_coursework.Base.{
  ℕ, ◌+◌, ◌-◌, ◌≤◌, ◌<◌, ◌≡◌, refl, Bool, true, false, Option, none, some, List, [], ◌∷◌, ltb,
  ltb→lt, if◌then◌else◌, get_elem?, set, length, bind-eq-some, arith, length-set,
}
use mathlib.Core.Path.{subst}
use cse344_coursework.Hire.{
  Student, Desk, give, dispatch, begin, hand_in, hire, serve, Step, append, turn, started, solved,
  closes, Starts, Reach, start, then_step, total_cost,
}
use cse344_coursework.Hire.Accounts.{
  accounts, all_jobs, accounts-set, all_jobs-set, jobs-given, account-given, jobs-begin,
  account-begin, jobs-hand_in, account-hand_in, jobs-idle, fresh-accounts, idle-total_cost,
  total_cost-accounts, someone_free,
}

-- What `main_thread` does with the choice, if it does not run into undefined behaviour.
data Given (d : Desk) (c : ℕ) (rest : List ℕ) : Desk → Type 0 where
  too_expensive :
      (i : ℕ)
      → Given d c rest (record d { finished = true; index = some i; available = d.available - 1 })
  hired :
      (i : ℕ) (s : Student)
      → get_elem? d.students i ≡ some s
      → s.cost ≤ d.money
      → Given d c rest (record d {
        students = set d.students i (hire s c (d.money - s.cost));
        money = d.money - s.cost;
        hw_queue = rest;
        available = d.available - 1;
        index = some i;
      })

paid :
    (d : Desk) (c : ℕ) (rest : List ℕ) (i : ℕ) (s : Student) (b : Bool)
    → ltb d.money s.cost ≡ b
    → get_elem? d.students i ≡ some s
    → Given d c rest (
        if b
        then record d { finished = true; index = some i; available = d.available - 1 }
        else record d {
          students = set d.students i (hire s c (d.money - s.cost));
          money = d.money - s.cost;
          hw_queue = rest;
          available = d.available - 1;
          index = some i;
        })
paid d c rest i s true e g = too_expensive i
paid d c rest i s false e g = hired i s g (ground (arith, e))

some_inj : {a b : Desk} → some a ≡ some b → a ≡ b
some_inj e = cc

give-Given :
    (d e : Desk) (c : ℕ) (rest : List ℕ) (index : Option ℕ)
    → give d c rest index ≡ some e
    → Given d c rest e
unfolding give
give-Given d e c rest index h =
    let (i, _, h2) = bind-eq-some index _ h in
    let (s, g, h3) = bind-eq-some (get_elem? d.students i) _ h2 in
    subst (Given d c rest) (some_inj h3) (paid d c rest i s _ refl g)

-- The money that is left and what the students were or will be paid make up the money at the start;
-- while the program goes on, `available` counts the students less the homeworks that are being done.
pub record Inv (save_money : ℕ) (d : Desk) : Type 0 where
  pub kept : d.money + accounts d.students ≡ save_money
  pub counted : d.finished ≡ false → d.available + all_jobs d.students ≡ length d.students

Given-Inv :
    (m : ℕ) (d e : Desk) (c : ℕ) (rest : List ℕ)
    → d.finished ≡ false
    → 0 < d.available
    → Given d c rest e
    → Inv m d
    → Inv m e
Given-Inv m d e c rest f pos_available (too_expensive i) v = record {
  kept = v.kept;
  counted = λ g. cc;
}
Given-Inv m d e c rest f pos_available (hired i s g le) v = record {
  kept = omega (
    arith,
    v.kept,
    le,
    account-given s c (d.money - s.cost),
    accounts-set d.students i s (hire s c (d.money - s.cost)) g,
  );
  counted = λ _. omega (
    arith,
    v.counted f,
    pos_available,
    jobs-given s c (d.money - s.cost),
    all_jobs-set d.students i s (hire s c (d.money - s.cost)) g,
    length-set d.students i (hire s c (d.money - s.cost)),
  );
}

if-some :
    (b : Bool) (o : Option Desk) {e : Desk}
    → (if b then o else none) ≡ some e
    → (b ≡ true) × (o ≡ some e)
if-some true o h = (refl, h)
if-some false o h = cc

serve-Inv :
    (m : ℕ) (d e : Desk) (q : List ℕ) → d.finished ≡ false → serve d q ≡ some e → Inv m d → Inv m e
unfolding serve
serve-Inv m d e [] f h v = cc
serve-Inv m d e (c ∷ rest) f h v =
    let (posted, g) = if-some (ltb 0 d.available) _ h in
    Given-Inv m d e c rest f (ltb→lt 0 d.available posted) (give-Given d e c rest _ g) v

Step-Inv : (m : ℕ) (d e : Desk) → Step d e → Inv m d → Inv m e
unfolding dispatch
Step-Inv m d e (append d2 c) v = record { kept = v.kept; counted = v.counted }
Step-Inv m d e (turn d2 e2 f h) v = serve-Inv m d e d.hw_queue f h v
Step-Inv m d e (started d2 i s f g b w) v = record {
  kept = omega (arith, v.kept, account-begin s b w, accounts-set d.students i s (begin s) g);
  counted = λ _. omega (
    arith,
    v.counted f,
    jobs-begin s b w,
    all_jobs-set d.students i s (begin s) g,
    length-set d.students i (begin s),
  );
}
Step-Inv m d e (solved d2 i s g b) v = record {
  kept = omega (arith, v.kept, account-hand_in s b, accounts-set d.students i s (hand_in s) g);
  counted = λ f. omega (
    arith,
    v.counted f,
    jobs-hand_in s b,
    all_jobs-set d.students i s (hand_in s) g,
    length-set d.students i (hand_in s),
  );
}
Step-Inv m d e (closes d2 f q) v = record { kept = v.kept; counted = λ g. cc }

Reach-Inv : (m : ℕ) (d : Desk) → Reach m d → Inv m d
unfolding Starts
Reach-Inv m d (start d2 (e, a, h)) =
    let (none_paid, no_jobs) = fresh-accounts d.students h in
    record { kept = omega (arith, e, none_paid); counted = λ _. omega (arith, a, no_jobs) }
Reach-Inv m d (then_step c d2 r st) = Step-Inv m c d st (Reach-Inv m c r)

-- At every moment the students' balances and the money that is left are together at most the money
-- at the start.
pub Reach-total_cost :
    (save_money : ℕ) (d : Desk) → Reach save_money d → total_cost d.students + d.money ≤ save_money
Reach-total_cost m d r = omega (arith, (Reach-Inv m d r).kept, total_cost-accounts d.students)

-- When no student has work, the amount that finishedOutput prints as left, the money at the start
-- less all balances, is the money that is left.
pub Reach-settled :
    (save_money : ℕ) (d : Desk)
    → Reach save_money d
    → all_jobs d.students ≡ 0
    → save_money - total_cost d.students ≡ d.money
Reach-settled m d r e = omega (arith, (Reach-Inv m d r).kept, idle-total_cost d.students e)

-- As long as `main_thread` goes on and gets past `available`, there is a student without work.
pub Reach-free :
    (save_money : ℕ) (d : Desk)
    → Reach save_money d
    → d.finished ≡ false
    → 0 < d.available
    → (i : ℕ) × (s : Student) × (get_elem? d.students i ≡ some s)
      × (s.busy ≡ false)
      × (s.start_work ≡ 0)
Reach-free m d r f a =
    let counted = (Reach-Inv m d r).counted f in
    let (i, s, g, e) = someone_free d.students (omega arith) in
    let (b, w) = jobs-idle s e in (i, s, g, b, w)
