-- ===== src/Clinic/Census.antt =====
-- How many of the clinic's processes (Midterm/main.c) are where, in every reachable state.
use cse344_coursework.Base.{
  ℕ, zero, suc, ◌+◌, ◌*◌, ◌≤◌, ◌<◌, ◌≡◌, ◌≢◌, refl, ap, Bool, true, false, some, List, [], ◌∷◌,
  if◌then◌else◌, length, get_elem?, set, replicate, arith,
}
use cse344_coursework.Clinic.{
  Turn, nobody, one_full, two_full, inviting, Buffer, alloc_buff_shared_mem, nurse, brought,
  vaccinator, invite, Step, takes_empty, brings, takes_full, takes_second, decides, invites, comes,
}
use cse344_coursework.Clinic.Doses.{Inv, Step-Inv, start-Inv}
use cse344_coursework.Clinic.Staff.{
  Citizen, needs, gone, Clinic, IsStaffed, Move, acts, comes_in, leaves, opened, Moves, here, next,
}

-- The vaccinator inside.
unfoldable pub busy : Turn → ℕ
busy nobody = 0
busy one_full = 1
busy two_full = 1
busy inviting = 1

-- What a citizen still asks for, and what a list of them does.
abbrev pub needed : Citizen → ℕ
needed (needs i) = i
needed gone = 0

abbrev pub lives : Citizen → ℕ
lives (needs i) = 1
lives gone = 0

unfoldable pub total : (Citizen → ℕ) → List Citizen → ℕ
total f [] = 0
total f (c ∷ cs) = f c + total f cs

pub total-set :
    (f : Citizen → ℕ) (cs : List Citizen) (j : ℕ) (a b : Citizen)
    → get_elem? cs j ≡ some a
    → total f (set cs j b) + f a ≡ total f cs + f b
unfolding total
total-set f [] j a b e = cc
total-set f (c ∷ cs) zero a b e = let same : c ≡ a = cc in omega (arith, ap f same)
total-set f (c ∷ cs) (suc j) a b e = omega (arith, total-set f cs j a b e)

pub total-replicate : (f : Citizen → ℕ) (k : ℕ) (a : Citizen) → total f (replicate k a) ≡ k * f a
unfolding total
total-replicate f zero a = omega arith
total-replicate f (suc k) a = omega (arith, total-replicate f k a)

-- Nurses and vaccinators; `all` are the doses of all citizens.
pub record Crew (n v all : ℕ) (b : Buffer) : Type 0 where
  pub nurses : b.nurse_termination + b.holding ≤ n
  pub at_end : 0 < b.nurse_termination → b.is_eof ≡ true
  pub all_read : b.is_eof ≡ true → length b.input ≡ 0
  pub vaccinators : b.vaccinators_done + busy b.turn ≤ v
  pub done : 0 < b.vaccinators_done → b.total_applied_dose ≡ all
  pub below : b.turn ≡ inviting → b.total_applied_dose ≢ all

brought-Crew :
    (n v all : ℕ) (b : Buffer) (i : List ℕ)
    → 0 < b.holding
    → i ≡ b.input
    → b.is_eof ≡ false
    → Crew n v all b
    → Crew n v all (brought i b)
brought-Crew n v all b [] h e f k =
    let none_left = ap (length {A = ℕ}) e in ground (arith, none_left)
brought-Crew n v all b (x ∷ i) h e f k = ground arith

nurse-Crew : (n v all : ℕ) (b : Buffer) → 0 < b.holding → Crew n v all b → Crew n v all (nurse b)
unfolding nurse
nurse-Crew n v all b h k = at b.is_eof refl
  where
    at : (e : Bool) → b.is_eof ≡ e → Crew n v all (brought (if e then [] else b.input) b)
    at true e = ground (arith, k.all_read e)
    at false e = brought-Crew n v all b b.input h refl e k

vaccinator-Crew :
    (n v all : ℕ) (b : Buffer)
    → b.turn ≡ two_full
    → Crew n v all b
    → Crew n v all (vaccinator all b)
unfolding vaccinator busy
vaccinator-Crew n v all b h k = ground arith

invite-Crew :
    (n v all : ℕ) (b : Buffer) → b.turn ≡ inviting → Crew n v all b → Crew n v all (invite b)
unfolding invite busy
invite-Crew n v all b h k = ground (arith, k.below h)

pub Step-Crew :
    (n v all : ℕ) (b : Buffer) {c : Buffer} (st : Step all b c)
    → IsStaffed n v all b st
    → Crew n v all b
    → Crew n v all c
unfolding busy
Step-Crew n v all b (takes_empty h) g k = ground arith
Step-Crew n v all b (brings h f) g k = nurse-Crew n v all b h k
Step-Crew n v all b (takes_full h f) g k = ground arith
Step-Crew n v all b (takes_second h f) g k = ground arith
Step-Crew n v all b (decides f) g k = vaccinator-Crew n v all b f k
Step-Crew n v all b (invites h f) g k = invite-Crew n v all b f k
Step-Crew n v all b comes g k = absurd g

-- The whole clinic, with `c` citizens.
pub record Staffed (n v c all size : ℕ) (input : List ℕ) (s : Clinic) : Type 0 where
  pub doses : Inv size input s.buffer
  pub crew : Crew n v all s.buffer
  pub offers : s.buffer.m_citizen + s.buffer.total_applied_dose + total needed s.citizens ≡ all
  pub counted : s.dead_citizen + total lives s.citizens ≡ c

nurse_offers :
    (b : Buffer)
    → (nurse b).m_citizen + (nurse b).total_applied_dose ≡ b.m_citizen + b.total_applied_dose
unfolding nurse
nurse_offers b = at (if b.is_eof then [] else b.input)
  where
    at :
        (i : List ℕ)
        → (brought i b).m_citizen + (brought i b).total_applied_dose
          ≡ b.m_citizen + b.total_applied_dose
    at [] = refl
    at (x ∷ i) = ground arith

vaccinator_offers :
    (all : ℕ) (b : Buffer)
    → (vaccinator all b).m_citizen + (vaccinator all b).total_applied_dose
      ≡ b.m_citizen + b.total_applied_dose
unfolding vaccinator
vaccinator_offers all b = ground arith

invite_offers :
    (b : Buffer)
    → 0 < b.m_citizen
    → (invite b).m_citizen + (invite b).total_applied_dose ≡ b.m_citizen + b.total_applied_dose
unfolding invite
invite_offers b h = omega arith

Crew-comes :
    (n v all : ℕ) (b : Buffer)
    → Crew n v all b
    → Crew n v all (record b { m_citizen = b.m_citizen + 1 })
Crew-comes n v all b k = ground arith

-- A step of a nurse or a vaccinator keeps the offers together.
Step-offers :
    (n v all : ℕ) (b : Buffer) {c : Buffer} (st : Step all b c)
    → IsStaffed n v all b st
    → c.m_citizen + c.total_applied_dose ≡ b.m_citizen + b.total_applied_dose
Step-offers n v all b (takes_empty h) g = refl
Step-offers n v all b (brings h f) g = nurse_offers b
Step-offers n v all b (takes_full h f) g = refl
Step-offers n v all b (takes_second h f) g = refl
Step-offers n v all b (decides f) g = vaccinator_offers all b
Step-offers n v all b (invites h f) g = invite_offers b h
Step-offers n v all b comes g = absurd g

pub Move-Staffed :
    {n v c all size : ℕ} {input : List ℕ} {s e : Clinic}
    → Move n v all s e
    → Staffed n v c all size input s
    → Staffed n v c all size input e
Move-Staffed {n} {v} {all = all} {s = s} (acts st g) k = record {
  doses = Step-Inv st k.doses;
  crew = Step-Crew n v all s.buffer st g k.crew;
  offers = omega (arith, Step-offers n v all s.buffer st g, k.offers);
  counted = k.counted;
}
Move-Staffed {n} {v} {all = all} {s = s} (comes_in j i e) k = record {
  doses = Step-Inv {all = all} comes k.doses;
  crew = Crew-comes n v all s.buffer k.crew;
  offers = omega (arith, total-set needed s.citizens j (needs (suc i)) (needs i) e, k.offers);
  counted = omega (arith, total-set lives s.citizens j (needs (suc i)) (needs i) e, k.counted);
}
Move-Staffed {s = s} (leaves j e) k = record {
  doses = k.doses;
  crew = k.crew;
  offers = omega (arith, total-set needed s.citizens j (needs zero) gone e, k.offers);
  counted = omega (arith, total-set lives s.citizens j (needs zero) gone e, k.counted);
}

pub Moves-Staffed :
    {n v c all size : ℕ} {input : List ℕ} {s e : Clinic}
    → Moves n v all s e
    → Staffed n v c all size input s
    → Staffed n v c all size input e
Moves-Staffed here k = k
Moves-Staffed (next ms m) k = Move-Staffed m (Moves-Staffed ms k)

start-Crew : (n v all size : ℕ) (input : List ℕ) → Crew n v all (alloc_buff_shared_mem size input)
unfolding alloc_buff_shared_mem busy
start-Crew n v all size input = ground arith

pub opened-Staffed :
    (n v c t size : ℕ) (input : List ℕ) → Staffed n v c (c * t) size input (opened c t size input)
unfolding opened busy
opened-Staffed n v c t size input = record {
  doses = start-Inv size input;
  crew = start-Crew n v (c * t) size input;
  offers = omega (arith, total-replicate needed c (needs t));
  counted = omega (arith, total-replicate lives c (needs t));
}
