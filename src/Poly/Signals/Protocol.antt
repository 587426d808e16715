-- ===== src/Poly/Signals/Protocol.antt =====
-- Where the children can be by the place of the parent, in HWs/HW2/main.c.
use cse344_coursework.Base.{
  ℕ, suc, zero, ◌≤◌, ◌<◌, ◌≡◌, ◌≢◌, ◌⊎◌, inl, inr, refl, sym, ap, ◌∙◌, Bool, Bool-cases, true,
  false, some, List, [], ◌∷◌, get_elem?, set, length, length-set, get_elem?-set_self,
  get_elem?-set_ne, arith, ◌==◌, get_elem?-lt,
}
use mathlib.Core.Path.{subst}
use cse344_coursework.Poly.Signals.{
  Place, first_round, waiting, told, resting, second_round, ended, Child, Parent, sends_first,
  suspended, sends_second, printed, System, AllEnded,
}

-- In the first round or behind it, and in which of the later places, with what is pending.
abbrev pub Fresh : (pending : Bool) → Place → Bool → Type 0
Fresh pending first_round u = u ≡ pending
Fresh pending waiting u = u ≡ pending
Fresh pending _ u = ⊥

abbrev pub Rested : Place → Bool → Type 0
Rested resting u = u ≡ false
Rested _ u = ⊥

abbrev pub Answers : Place → Bool → Type 0
Answers first_round u = u ≡ true
Answers waiting u = u ≡ true
Answers told u = u ≡ false
Answers _ u = ⊥

abbrev pub Later : Place → Bool → Type 0
Later resting u = u ≡ true
Later second_round u = u ≡ false
Later ended u = u ≡ false
Later _ u = ⊥

abbrev pub Asked : (usr2 : Bool) → Place → Bool → Type 0
Asked true place u = Rested place u
Asked false place u = Answers place u

-- What a child's place and pending signal are, by the parent's place.
abbrev pub Good : Parent → (usr2 : Bool) → ℕ → Place → Bool → Type 0
Good (sends_first i) usr2 k place u = (k < i → Rested place u) × (i ≤ k → Fresh false place u)
Good (suspended i) usr2 k place u =
    (k < i → Rested place u) × (i < k → Fresh false place u) × (k ≡ i → Asked usr2 place u)
Good (sends_second i) usr2 k place u = (k < i → Later place u) × (i ≤ k → Rested place u)
Good printed usr2 k place u = place ≡ ended

abbrev pub Quiet : Parent → Bool → ℕ → Type 0
Quiet (sends_first i) usr2 n = (usr2 ≡ false) × (i ≤ n)
Quiet (suspended i) usr2 n = i < n
Quiet (sends_second i) usr2 n = (usr2 ≡ false) × (i ≤ n)
Quiet printed usr2 n = Unit

pub record Inv (n : ℕ) (s : System) : Type 0 where
  pub each :
      (k : ℕ) (c : Child) → get_elem? s.children k ≡ some c → Good s.parent s.usr2 k c.place c.usr1
  pub quiet : Quiet s.parent s.usr2 n
  pub count : length s.children ≡ n

pub ends_first-Good :
    (p : Parent) (v : Bool) (k : ℕ) (u : Bool) → Good p v k first_round u → Good p v k waiting u
ends_first-Good (sends_first i) v k u (a, b) = (a, b)
ends_first-Good (suspended i) true k u (a, b, c) = (a, b, c)
ends_first-Good (suspended i) false k u (a, b, c) = (a, b, c)
ends_first-Good (sends_second i) v k u (a, b) = (a, b)
ends_first-Good printed v k u e = cc

pub hears_first-Good :
    (p : Parent) (v : Bool) (k : ℕ) → Good p v k waiting true → Good p v k told false
hears_first-Good (sends_first i) v k (a, b) = (a, λ h. let no = b h in cc)
hears_first-Good (suspended i) true k (a, b, c) = (a, (λ h. let no = b h in cc), c)
hears_first-Good (suspended i) false k (a, b, c) = (a, (λ h. let no = b h in cc), λ e. refl)
hears_first-Good (sends_second i) v k (a, b) = (a, b)
hears_first-Good printed v k e = cc

pub hears_second-Good :
    (p : Parent) (v : Bool) (k : ℕ) → Good p v k resting true → Good p v k second_round false
hears_second-Good (sends_first i) v k (a, b) = ((λ h. let no = a h in cc), b)
hears_second-Good (suspended i) true k (a, b, c) =
    ((λ h. let no = a h in cc), b, (λ e. let no = c e in cc))
hears_second-Good (suspended i) false k (a, b, c) = ((λ h. let no = a h in cc), b, c)
hears_second-Good (sends_second i) v k (a, b) = ((λ h. refl), (λ h. let no = b h in cc))
hears_second-Good printed v k e = cc

pub ends-Good :
    (p : Parent) (v : Bool) (k : ℕ) (u : Bool) → Good p v k second_round u → Good p v k ended u
ends-Good (sends_first i) v k u (a, b) = (a, b)
ends-Good (suspended i) true k u (a, b, c) = (a, b, c)
ends-Good (suspended i) false k u (a, b, c) = (a, b, c)
ends-Good (sends_second i) v k u (a, b) = (a, b)
ends-Good printed v k u e = cc

pub lt_cases : (m n : ℕ) → (m < n) ⊎ (n ≤ m)
lt_cases m n = ground arith

order_cases : (m n : ℕ) → (m < n) ⊎ (n < m) ⊎ (m ≡ n)
order_cases m n = ground arith

abbrev pub Every : Parent → Bool → List Child → Type 0
Every p v cs = (k : ℕ) (c : Child) → get_elem? cs k ≡ some c → Good p v k c.place c.usr1

-- One child changes, and what is said of the others follows from what was said.
pub Every-set :
    (p q : Parent) (v w : Bool) (cs : List Child) (i : ℕ) (old new : Child)
    → get_elem? cs i ≡ some old
    → Every p v cs
    → (Good p v i old.place old.usr1 → Good q w i new.place new.usr1)
    → ((k : ℕ) (c : Child) → k ≢ i → Good p v k c.place c.usr1 → Good q w k c.place c.usr1)
    → Every q w (set cs i new)
Every-set p q v w cs i old new e all one others k c there = elim (Bool-cases (k == i)) [
  | inl same ↦
      let at : k ≡ i = ground (arith, same) in
      let found : some new ≡ some c =
        sym (get_elem?-set_self cs i new (get_elem?-lt cs i e))
        ∙ ap (λ n. get_elem? (set cs i new) n) (sym at)
        ∙ there in
      let c_new : new ≡ c = cc in
      subst (λ n. Good q w n c.place c.usr1) (sym at)
        (subst (λ d. Good q w i d.place d.usr1) c_new (one (all i old e)))
  | inr other ↦
      let differ : k ≢ i = ground (arith, other) in
      let back : i ≢ k = (λ eq. differ (sym eq)) in
      others k c differ (all k c (sym (get_elem?-set_ne cs new back) ∙ there))
]

pub Inv-child :
    {n : ℕ} {s : System} (i : ℕ) (old new : Child)
    → get_elem? s.children i ≡ some old
    → (Good s.parent s.usr2 i old.place old.usr1 → Good s.parent s.usr2 i new.place new.usr1)
    → Inv n s
    → Inv n (record s { children = set s.children i new })
Inv-child {s = s} i old new e one inv = record {
  each =
      Every-set s.parent s.parent s.usr2 s.usr2 s.children i old new e inv.each one (λ k c d g. g);
  quiet = inv.quiet;
  count = length-set s.children i new ∙ inv.count;
}

pub told-suspended :
    (p : Parent) (v : Bool) (k : ℕ) (u : Bool) → Good p v k told u → (p ≡ suspended k) × (u ≡ false)
told-suspended (sends_first i) v k u (a, b) = elim (lt_cases k i) [
  | inl l ↦ absurd (a l)
  | inr l ↦ absurd (b l)
]
told-suspended (suspended i) true k u (a, b, c) = elim (order_cases k i) [
  | inl l ↦ absurd (a l)
  | inr (inl l) ↦ absurd (b l)
  | inr (inr e) ↦ absurd (c e)
]
told-suspended (suspended i) false k u (a, b, c) = elim (order_cases k i) [
  | inl l ↦ absurd (a l)
  | inr (inl l) ↦ absurd (b l)
  | inr (inr e) ↦ (ap suspended (sym e), c e)
]
told-suspended (sends_second i) v k u (a, b) = elim (lt_cases k i) [
  | inl l ↦ absurd (a l)
  | inr l ↦ absurd (b l)
]
told-suspended printed v k u e = cc

pub Fresh-Answers : (place : Place) (u : Bool) → Fresh false place u → Answers place true
Fresh-Answers first_round u h = refl
Fresh-Answers waiting u h = refl
Fresh-Answers told u h = absurd h
Fresh-Answers resting u h = absurd h
Fresh-Answers second_round u h = absurd h
Fresh-Answers ended u h = absurd h

pub Rested-Later : (place : Place) (u : Bool) → Rested place u → Later place true
Rested-Later resting u h = refl
Rested-Later first_round u h = absurd h
Rested-Later waiting u h = absurd h
Rested-Later told u h = absurd h
Rested-Later second_round u h = absurd h
Rested-Later ended u h = absurd h

pub AllEnded-get :
    (cs : List Child) (k : ℕ) (c : Child) → AllEnded cs → get_elem? cs k ≡ some c → c.place ≡ ended
AllEnded-get [] k c h e = cc
AllEnded-get (d ∷ cs) zero c (p, h) e = let same : d ≡ c = cc in ap Child.place (sym same) ∙ p
AllEnded-get (d ∷ cs) (suc k) c (p, h) e = AllEnded-get cs k c h e

-- The parent at a known place.
pub Every-at :
    {n : ℕ} {s : System} {p : Parent} {v : Bool}
    → Inv n s
    → s.parent ≡ p
    → s.usr2 ≡ v
    → Every p v s.children
Every-at {s = s} {p} inv e f k c there =
    subst (λ w. Good p w k c.place c.usr1) f
      (subst (λ q. Good q s.usr2 k c.place c.usr1) e (inv.each k c there))

pub Quiet-at : {n : ℕ} {s : System} {p : Parent} → Inv n s → s.parent ≡ p → Quiet p s.usr2 n
Quiet-at {n} {s} inv e = subst (λ q. Quiet q s.usr2 n) e inv.quiet
