-- ===== src/Potato/Index.antt =====
-- Looking up a process by its pid: gpiWithPid and getProcessIndex of HWs/HW3/main.c.
use cse344_coursework.Base.{
  ℕ, zero, suc, ◌+◌, ◌-◌, ◌≤◌, ◌<◌, ◌≡◌, refl, ◌⊎◌, ap, sym, some, List, [], ◌∷◌, ◌++◌, length,
  get_elem?, set, arith, ◌==◌, ==_iff, if◌then◌else◌, Bool-cases, inl, inr,
}
use cse344_coursework.Potato.{Process, gpi_with_pid, minus_one_32}

pub gpi_with_pid-le : (procs : List Process) (r : ℕ) → gpi_with_pid procs r ≤ length procs
unfolding gpi_with_pid
gpi_with_pid-le [] r = omega arith
gpi_with_pid-le (p ∷ procs) r = ground (arith, gpi_with_pid-le procs r)

-- The index that is found holds the pid.
pub gpi_with_pid-found :
    (procs : List Process) (r : ℕ)
    → gpi_with_pid procs r < length procs
    → (p : Process) × (get_elem? procs (gpi_with_pid procs r) ≡ some p) × (p.id ≡ r)
unfolding gpi_with_pid
gpi_with_pid-found [] r h = absurd (omega arith)
gpi_with_pid-found (p ∷ procs) r h = elim (Bool-cases (p.id == r)) [
  | inl e ↦ rw e (p, refl, (==_iff p.id r).0 e)
  | inr e ↦
      let lt : gpi_with_pid procs r < length procs = ground (arith, h) in
      rw e (gpi_with_pid-found procs r lt)
]

pub gpi_with_pid-append :
    (procs : List Process) (q : Process) (r : ℕ)
    → gpi_with_pid procs r < length procs
    → gpi_with_pid (procs ++ (q ∷ [])) r ≡ gpi_with_pid procs r
unfolding gpi_with_pid
gpi_with_pid-append [] q r h = absurd (omega arith)
gpi_with_pid-append (p ∷ procs) q r h = ground (arith, gpi_with_pid-append procs q r)

pub gpi_with_pid-append_new :
    (procs : List Process) (q : Process) (r : ℕ)
    → gpi_with_pid procs r ≡ length procs
    → gpi_with_pid (procs ++ (q ∷ [])) r ≡ length procs + (if q.id == r then 0 else 1)
unfolding gpi_with_pid
gpi_with_pid-append_new [] q r h = ground arith
gpi_with_pid-append_new (p ∷ procs) q r h = ground (arith, gpi_with_pid-append_new procs q r)

pub gpi_with_pid-set :
    (procs : List Process) (k : ℕ) (q : Process) (n r : ℕ)
    → get_elem? procs k ≡ some q
    → gpi_with_pid (set procs k (record q { cool_down = n })) r ≡ gpi_with_pid procs r
unfolding gpi_with_pid
gpi_with_pid-set [] k q n r e = cc
gpi_with_pid-set (p ∷ procs) zero q n r e = ground arith
gpi_with_pid-set (p ∷ procs) (suc k) q n r e = ground (arith, gpi_with_pid-set procs k q n r e)

pub get_elem?-append_end {ℓ} :
    {A : Type ℓ} (xs : List A) (x : A) (i : ℕ) {y : A}
    → get_elem? (xs ++ (x ∷ [])) i ≡ some y
    → (get_elem? xs i ≡ some y) ⊎ ((i ≡ length xs) × (y ≡ x))
get_elem?-append_end [] x zero e = inr (refl, (let s : x ≡ _ = cc in sym s))
get_elem?-append_end [] x (suc i) e = cc
get_elem?-append_end (z ∷ xs) x zero e = inl e
get_elem?-append_end (z ∷ xs) x (suc i) e = elim (get_elem?-append_end xs x i e) [
  | inl h ↦ inl h
  | inr (h, k) ↦ inr (ap suc h, k)
]

pub minus_one_32-pred : (n : ℕ) → 1 ≤ n → n < 4294967296 → minus_one_32 n ≡ n - 1
minus_one_32-pred n h k = omega arith

-- The first entry with the pid is not behind one with the pid.
pub gpi_with_pid-first :
    (procs : List Process) (i : ℕ) (p : Process)
    → get_elem? procs i ≡ some p
    → gpi_with_pid procs p.id ≤ i
unfolding gpi_with_pid
gpi_with_pid-first [] i p e = cc
gpi_with_pid-first (q ∷ procs) zero p e =
    let same : q ≡ p = cc in ground (arith, ap (λ (x : Process). x.id) same)
gpi_with_pid-first (q ∷ procs) (suc i) p e = ground (arith, gpi_with_pid-first procs i p e)
