-- ===== src/Hire/Accounts.antt =====
-- What the students of HWs/HW4/main.c earn, summed up.
use cse344_coursework.Base.{
  ℕ, zero, suc, ◌+◌, ◌≤◌, ◌<◌, ◌≡◌, refl, ap, true, false, none, some, List, [], ◌∷◌, if◌then◌else◌,
  inl, inr, ◌⊎◌, get_elem?, set, length, arith,
}
use cse344_coursework.Hire.{Student, begin, hand_in, hire, total_cost}

-- The homeworks that a student was given and has not handed in.
pub jobs : Student → ℕ
jobs s = s.start_work + (if s.busy then 1 else 0)

times : ℕ → ℕ → ℕ
times zero c = 0
times (suc n) c = times n c + c

-- The money that went to a student, or will.
pub account : Student → ℕ
unfolding jobs times
account s = s.balance + times (jobs s) s.cost

pub accounts : List Student → ℕ
unfolding account
accounts [] = 0
accounts (s ∷ students) = account s + accounts students

unfoldable pub all_jobs : List Student → ℕ
unfolding jobs
all_jobs [] = 0
all_jobs (s ∷ students) = jobs s + all_jobs students

got : (f : Student → ℕ) {x s : Student} → some x ≡ some s → f x ≡ f s
got f e = ap (λ o. elim o [ none ↦ 0 | some y ↦ f y ]) e

pub accounts-set :
    (students : List Student) (i : ℕ) (s t : Student)
    → get_elem? students i ≡ some s
    → accounts (set students i t) + account s ≡ accounts students + account t
unfolding accounts
accounts-set [] i s t e = cc
accounts-set (x ∷ students) zero s t e = omega (arith, got account e)
accounts-set (x ∷ students) (suc i) s t e = omega (arith, accounts-set students i s t e)

pub all_jobs-set :
    (students : List Student) (i : ℕ) (s t : Student)
    → get_elem? students i ≡ some s
    → all_jobs (set students i t) + jobs s ≡ all_jobs students + jobs t
unfolding all_jobs
all_jobs-set [] i s t e = cc
all_jobs-set (x ∷ students) zero s t e = omega (arith, got jobs e)
all_jobs-set (x ∷ students) (suc i) s t e = omega (arith, all_jobs-set students i s t e)

-- One homework more.
pub jobs-given : (s : Student) (c m : ℕ) → jobs (hire s c m) ≡ suc (jobs s)
unfolding jobs
jobs-given s c m = ground arith

pub account-given : (s : Student) (c m : ℕ) → account (hire s c m) ≡ account s + s.cost
unfolding account times
account-given s c m =
    let more = ap (λ n. s.balance + times n s.cost) (jobs-given s c m) in omega (arith, more)

pub jobs-begin : (s : Student) → s.busy ≡ false → 0 < s.start_work → jobs (begin s) ≡ jobs s
unfolding jobs
jobs-begin s f h = ground arith

pub account-begin :
    (s : Student) → s.busy ≡ false → 0 < s.start_work → account (begin s) ≡ account s
unfolding account
account-begin s f h = ap (λ n. s.balance + times n s.cost) (jobs-begin s f h)

pub jobs-hand_in : (s : Student) → s.busy ≡ true → suc (jobs (hand_in s)) ≡ jobs s
unfolding jobs
jobs-hand_in s f = ground arith

pub account-hand_in : (s : Student) → s.busy ≡ true → account (hand_in s) ≡ account s
unfolding account times
account-hand_in s f =
    let less = ap (λ n. s.balance + times n s.cost) (jobs-hand_in s f) in omega (arith, less)

idle-jobs : (s : Student) → s.busy ≡ false → s.start_work ≡ 0 → jobs s ≡ 0
unfolding jobs
idle-jobs s b w = ground arith

pub jobs-idle : (s : Student) → jobs s ≡ 0 → (s.busy ≡ false) × (s.start_work ≡ 0)
unfolding jobs
jobs-idle s e = ground arith

-- A student without work has no money coming.
idle-account : (s : Student) → jobs s ≡ 0 → account s ≡ s.balance
unfolding account times
idle-account s e = let nothing = ap (λ n. s.balance + times n s.cost) e in omega (arith, nothing)

account-balance : (s : Student) → s.balance ≤ account s
unfolding account
account-balance s = omega arith

pub fresh-accounts :
    (students : List Student)
    → ((i : ℕ) (s : Student)
        → get_elem? students i ≡ some s
        → (s.busy ≡ false) × (s.start_work ≡ 0) × (s.balance ≡ 0) × (s.solved ≡ 0))
    → (accounts students ≡ 0) × (all_jobs students ≡ 0)
unfolding accounts all_jobs
fresh-accounts [] h = (refl, refl)
fresh-accounts (s ∷ students) h =
    let (b, w, z, _) = h 0 s refl in
    let (ih, jh) = fresh-accounts students (λ i t e. h (suc i) t e) in
    let idle = idle-jobs s b w in
    (omega (arith, idle-account s idle, z, ih), omega (arith, idle, jh))

pub idle-total_cost :
    (students : List Student) → all_jobs students ≡ 0 → accounts students ≡ total_cost students
unfolding accounts all_jobs total_cost
idle-total_cost [] h = refl
idle-total_cost (s ∷ students) h =
    omega (arith, idle-account s (omega arith), idle-total_cost students (omega arith))

pub total_cost-accounts : (students : List Student) → total_cost students ≤ accounts students
unfolding accounts total_cost
total_cost-accounts [] = omega arith
total_cost-accounts (s ∷ students) = omega (arith, account-balance s, total_cost-accounts students)

zero_or_more : (n : ℕ) → (n ≡ 0) ⊎ (1 ≤ n)
zero_or_more n = ground arith

pub someone_free :
    (students : List Student)
    → all_jobs students < length students
    → (i : ℕ) × (s : Student) × (get_elem? students i ≡ some s) × (jobs s ≡ 0)
unfolding all_jobs
someone_free [] h = absurd (omega arith)
someone_free (s ∷ students) h = elim (zero_or_more (jobs s)) [
  | inl e ↦ (0, s, refl, e)
  | inr e ↦ let (i, t, g, n) = someone_free students (omega arith) in (suc i, t, g, n)
]
