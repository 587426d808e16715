-- ===== src/Hire/Choice.antt =====
-- Which student maximumQuality, maximumSpeed and minimumCost of HWs/HW4/main.c choose.
use cse344_coursework.Base.{
  ℕ, zero, suc, ◌+◌, ◌<◌, ◌≡◌, refl, Bool, true, false, ◌&&◌, not, Option, none, some, List, [],
  ◌∷◌, if◌then◌else◌, Bool-cases, inl, inr, ◌⊎◌, ℤ, pos, ltb_ℤ, get_elem?, arith,
}
use cse344_coursework.Hire.{
  Student, choose_loop, int_min, int_max, greater, maximum_quality, maximum_speed, minimum_cost,
}

-- Nobody free in the list is better than `best`.
Best : (key : Student → ℤ) (better : ℤ → ℤ → Bool) (best : ℤ) → List Student → Type 0
Best key better best students =
    (j : ℕ) (s : Student)
    → get_elem? students j ≡ some s
    → s.busy ≡ false
    → better (key s) best ≡ false

if-elim :
    (P : Option ℕ → Type 0) (b : Bool) (x y : Option ℕ)
    → (b ≡ true → P x)
    → (b ≡ false → P y)
    → P (if b then x else y)
if-elim P true x y f g = f refl
if-elim P false x y f g = g refl

and_free : (a b : Bool) → (not a && b) ≡ true → a ≡ false
and_free true b h = cc
and_free false b h = refl

and_right : (a b : Bool) → (a && b) ≡ true → b ≡ true
and_right true b h = h
and_right false b h = cc

not_both : (a b : Bool) → (not a && b) ≡ false → a ≡ false → b ≡ false
not_both true b h f = cc
not_both false b h f = h

nobody : {s : Student} {b : Bool} → none ≡ some s → b ≡ false
nobody e = cc

module _ (key : Student → ℤ) (better : ℤ → ℤ → Bool) (irreflexive : (a : ℤ) → better a a ≡ false)
    (transitive : (a b c : ℤ) → better a b ≡ true → better b c ≡ true → better a c ≡ true) where
  -- The student at `k` of the list is free, better than `best`, and nobody free is better.
  record Chosen (best : ℤ) (students : List Student) (k : ℕ) : Type 0 where
    student : Student
    at : get_elem? students k ≡ some student
    free : student.busy ≡ false
    beats : better (key student) best ≡ true
    top : Best key better (key student) students

  Outcome : (i : ℕ) (best : ℤ) (index : Option ℕ) → List Student → Option ℕ → Type 0
  Outcome i best index students r =
      ((r ≡ index) × Best key better best students)
      ⊎ ((k : ℕ) × (r ≡ some (i + k)) × Chosen best students k)

  cons-Best :
      (best : ℤ) (s : Student) (students : List Student)
      → (s.busy ≡ false → better (key s) best ≡ false)
      → Best key better best students
      → Best key better best (s ∷ students)
  unfolding Best
  cons-Best best s students h hs zero t e f = ground (arith, h, e, f)
  cons-Best best s students h hs (suc j) t e f = hs j t e f

  not_better : (a b c : ℤ) → better a c ≡ false → better b c ≡ true → better a b ≡ false
  not_better a b c h k = elim (Bool-cases (better a b)) [
    | inl e ↦ ground (arith, transitive a b c e k, h)
    | inr e ↦ e
  ]

  worse : (a b : ℤ) → better b a ≡ true → better a b ≡ false
  worse a b h = not_better a b a (irreflexive a) h

  taken-Outcome :
      (i : ℕ) (best : ℤ) (index : Option ℕ) (s : Student) (students : List Student) (r : Option ℕ)
      → s.busy ≡ false
      → better (key s) best ≡ true
      → Outcome (i + 1) (key s) (some i) students r
      → Outcome i best index (s ∷ students) r
  unfolding Outcome
  taken-Outcome i best index s students r f b (inl (e, h)) = inr (
    0,
    ground (arith, e),
    record {
      student = s;
      at = refl;
      free = f;
      beats = b;
      top = cons-Best (key s) s students (λ _. irreflexive (key s)) h;
    },
  )
  taken-Outcome i best index s students r f b (inr (k, e, c)) = inr (
    suc k,
    ground (arith, e),
    record {
      student = c.student;
      at = c.at;
      free = c.free;
      beats = transitive (key c.student) (key s) best c.beats b;
      top = cons-Best (key c.student) s students (λ _. worse (key s) (key c.student) c.beats) c.top;
    },
  )

  passed-Outcome :
      (i : ℕ) (best : ℤ) (index : Option ℕ) (s : Student) (students : List Student) (r : Option ℕ)
      → (s.busy ≡ false → better (key s) best ≡ false)
      → Outcome (i + 1) best index students r
      → Outcome i best index (s ∷ students) r
  unfolding Outcome
  passed-Outcome i best index s students r n (inl (e, h)) = inl (e, cons-Best best s students n h)
  passed-Outcome i best index s students r n (inr (k, e, c)) = inr (
    suc k,
    ground (arith, e),
    record {
      student = c.student;
      at = c.at;
      free = c.free;
      beats = c.beats;
      top =
          cons-Best (key c.student) s students
            (λ f. not_better (key s) (key c.student) best (n f) c.beats) c.top;
    },
  )

  choose_loop-Outcome :
      (i : ℕ) (best : ℤ) (index : Option ℕ) (students : List Student)
      → Outcome i best index students (choose_loop key better i best index students)
  unfolding choose_loop Outcome Best
  choose_loop-Outcome i best index [] = inl (refl, λ j s e f. nobody e)
  choose_loop-Outcome i best index (s ∷ students) =
      if-elim (Outcome i best index (s ∷ students)) (not s.busy && better (key s) best) _ _
        (λ e.
          taken-Outcome i best index s students _ (and_free s.busy _ e) (and_right (not s.busy) _ e)
            (choose_loop-Outcome (i + 1) (key s) (some i) students))
        (λ e.
          passed-Outcome i best index s students _ (not_both s.busy _ e)
            (choose_loop-Outcome (i + 1) best index students))

greater_irrefl : (a : ℤ) → greater a a ≡ false
greater_irrefl a = ground arith

greater_trans : (a b c : ℤ) → greater a b ≡ true → greater b c ≡ true → greater a c ≡ true
greater_trans a b c h k = ground arith

ltb_ℤ_irrefl : (a : ℤ) → ltb_ℤ a a ≡ false
ltb_ℤ_irrefl a = ground arith

ltb_ℤ_trans : (a b c : ℤ) → ltb_ℤ a b ≡ true → ltb_ℤ b c ≡ true → ltb_ℤ a c ≡ true
ltb_ℤ_trans a b c h k = ground arith

-- The student at `k` is free and no free student has a key that is above (for a maximum) or below
-- (for a minimum) this one's.
pub record Optimal (key : Student → ℤ) (better : ℤ → ℤ → Bool) (students : List Student) (k : ℕ)
    : Type 0 where
  pub student : Student
  pub at : get_elem? students k ≡ some student
  pub free : student.busy ≡ false
  pub top :
      (j : ℕ) (s : Student)
      → get_elem? students j ≡ some s
      → s.busy ≡ false
      → better (key s) (key student) ≡ false

Outcome-Optimal :
    (key : Student → ℤ) (better : ℤ → ℤ → Bool) (irr : (a : ℤ) → better a a ≡ false)
    (tr : (a b c : ℤ) → better a b ≡ true → better b c ≡ true → better a c ≡ true) (best : ℤ)
    (index r : Option ℕ) (students : List Student) (j : ℕ) (s : Student)
    → get_elem? students j ≡ some s
    → s.busy ≡ false
    → better (key s) best ≡ true
    → Outcome key better irr tr 0 best index students r
    → (k : ℕ) × (r ≡ some k) × Optimal key better students k
unfolding Outcome Best
Outcome-Optimal key better irr tr best index r students j s e f b (inl (d, h)) =
    ground (arith, h j s e f, b)
Outcome-Optimal key better irr tr best index r students j s e f b (inr (k, d, c)) =
    (k, ground (arith, d), record { student = c.student; at = c.at; free = c.free; top = c.top })

-- If some free student has a quality above INT_MIN, maximumQuality chooses a free student, and no
-- free student has a higher quality.
pub maximum_quality-Optimal :
    (students : List Student) (index : Option ℕ) (j : ℕ) (s : Student)
    → get_elem? students j ≡ some s
    → s.busy ≡ false
    → greater s.quality int_min ≡ true
    → (k : ℕ) × (maximum_quality students index ≡ some k)
      × Optimal Student.quality greater students k
unfolding maximum_quality
maximum_quality-Optimal students index j s e f b =
    Outcome-Optimal Student.quality greater greater_irrefl greater_trans int_min index _ students j
      s e f b
      (choose_loop-Outcome Student.quality greater greater_irrefl greater_trans 0 int_min index
        students)

-- If some free student has a speed above INT_MIN, maximumSpeed chooses a free student, and no free
-- student is faster.
pub maximum_speed-Optimal :
    (students : List Student) (index : Option ℕ) (j : ℕ) (s : Student)
    → get_elem? students j ≡ some s
    → s.busy ≡ false
    → greater s.speed int_min ≡ true
    → (k : ℕ) × (maximum_speed students index ≡ some k) × Optimal Student.speed greater students k
unfolding maximum_speed
maximum_speed-Optimal students index j s e f b =
    Outcome-Optimal Student.speed greater greater_irrefl greater_trans int_min index _ students j s
      e f b
      (choose_loop-Outcome Student.speed greater greater_irrefl greater_trans 0 int_min index
        students)

-- If some free student costs less than INT_MAX, minimumCost chooses a free student, and no free
-- student is cheaper.
pub minimum_cost-Optimal :
    (students : List Student) (index : Option ℕ) (j : ℕ) (s : Student)
    → get_elem? students j ≡ some s
    → s.busy ≡ false
    → s.cost < 2147483647
    → (k : ℕ) × (minimum_cost students index ≡ some k) × Optimal (λ t. pos t.cost) ltb_ℤ students k
unfolding minimum_cost
minimum_cost-Optimal students index j s e f b =
    Outcome-Optimal (λ t. pos t.cost) ltb_ℤ ltb_ℤ_irrefl ltb_ℤ_trans int_max index _ students j s e
      f (ground (arith, b))
      (choose_loop-Outcome (λ t. pos t.cost) ltb_ℤ ltb_ℤ_irrefl ltb_ℤ_trans 0 int_max index
        students)
