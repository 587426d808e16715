-- ===== src/Clinic/Rounds.antt =====
-- Moves of the clinic (Midterm/main.c) that lessen what is left to do.
use cse344_coursework.Base.{
  ℕ, zero, suc, ◌+◌, ◌-◌, ◌*◌, ◌≤◌, ◌<◌, ◌≡◌, ◌≢◌, ◌⊎◌, inl, inr, refl, ap, Bool, true, false, some,
  List, [], ◌∷◌, if◌then◌else◌, length, get_elem?, arith,
}
use cse344_coursework.Clinic.{
  nobody, one_full, two_full, inviting, Buffer, nurse, brought, vaccinator, invite,
  is_there_any_dose, Step, takes_empty, brings, takes_full, takes_second, decides, invites, m_free,
}
use mathlib.Core.Path.{subst}
use cse344_coursework.Clinic.Census.{
  busy, needed, lives, total, total-set, Crew, Step-Crew, Staffed,
}
use cse344_coursework.Clinic.Staff.{
  Citizen, needs, gone, Clinic, IsStaffed, Move, acts, comes_in, leaves, Moves, here, next, AllGone,
}

-- What is left to do: it falls with every move but those of a vaccinator's round.
unfoldable pub work : (n v all : ℕ) → Clinic → ℕ
work n v all s =
    2 * (n - (s.buffer.nurse_termination + s.buffer.holding))
    + s.buffer.holding
    + 3 * length s.buffer.input
    + (all - s.buffer.total_applied_dose)
    + (v - s.buffer.vaccinators_done)
    + total needed s.citizens
    + total lives s.citizens

abbrev pub Lessens : (n v all : ℕ) → Clinic → Type 0
Lessens n v all s = (e : Clinic) × Moves n v all s e × (work n v all e < work n v all s)

-- The numbers of work alone.
pub record Fewer (n v all : ℕ) (b c : Buffer) : Type 0 where
  pub tasks :
      2 * (n - (c.nurse_termination + c.holding))
        + c.holding
        + 3 * length c.input
        + (all - c.total_applied_dose)
        + (v - c.vaccinators_done)
      < 2 * (n - (b.nurse_termination + b.holding))
        + b.holding
        + 3 * length b.input
        + (all - b.total_applied_dose)
        + (v - b.vaccinators_done)

nurse-Fewer :
    (n v all : ℕ) (b : Buffer) → 0 < b.holding → Crew n v all b → Fewer n v all b (nurse b)
unfolding nurse
nurse-Fewer n v all b h k = at b.is_eof refl
  where
    with_input : (i : List ℕ) → i ≡ b.input → Fewer n v all b (brought i b)
    with_input [] e = ground arith
    with_input (x ∷ i) e = let len = ap (length {A = ℕ}) e in ground (arith, len)

    at : (e : Bool) → b.is_eof ≡ e → Fewer n v all b (brought (if e then [] else b.input) b)
    at true e = ground arith
    at false e = with_input b.input refl

-- One move of a process on the buffer that lessens the work.
by_one :
    (n v all : ℕ) (s : Clinic) {c : Buffer} (st : Step all s.buffer c)
    → IsStaffed n v all s.buffer st
    → Fewer n v all s.buffer c
    → Lessens n v all s
unfolding work
by_one n v all s st g f = (_, next here (acts st g), omega (arith, f.tasks))

-- A nurse can move: one holds a slot while `m` is free, or one can take a slot.
pub nurse_moves :
    (n v c all size : ℕ) (input : List ℕ) (s : Clinic)
    → Staffed n v c all size input s
    → m_free s.buffer.turn ≡ true
    → (0 < s.buffer.holding)
      ⊎ ((s.buffer.nurse_termination + s.buffer.holding < n) × (0 < s.buffer.empty))
    → Lessens n v all s
nurse_moves n v c all size input s k free (inl h) =
    by_one n v all s (brings h free) tt (nurse-Fewer n v all s.buffer h k.crew)
nurse_moves n v c all size input s k free (inr (idle, slot)) =
    by_one n v all s (takes_empty slot) idle (ground arith)

pub nurse_cases :
    (n : ℕ) (b : Buffer)
    → b.nurse_termination + b.holding ≤ n
    → ((0 < b.holding) ⊎ ((b.nurse_termination + b.holding < n) × (0 < b.empty)))
      ⊎ ((b.holding ≡ 0) × ((b.nurse_termination ≡ n) ⊎ (b.empty ≡ 0)))
nurse_cases n b h = ground arith

-- A citizen that has not left.
pub one_lives : (cs : List Citizen) → (AllGone cs) ⊎ ((j i : ℕ) × (get_elem? cs j ≡ some (needs i)))
one_lives [] = inl tt
one_lives (needs i ∷ cs) = inr (0, i, refl)
one_lives (gone ∷ cs) = elim (one_lives cs) [ inl g ↦ inl g | inr (j, i, e) ↦ inr (suc j, i, e) ]

pub citizen_moves :
    (n v all : ℕ) (s : Clinic) (j i : ℕ)
    → get_elem? s.citizens j ≡ some (needs i)
    → Lessens n v all s
unfolding work
citizen_moves n v all s j zero e = (
  _,
  next here (leaves j e),
  omega (
    arith,
    total-set needed s.citizens j (needs zero) gone e,
    total-set lives s.citizens j (needs zero) gone e,
  ),
)
citizen_moves n v all s j (suc i) e = (
  _,
  next here (comes_in j i e),
  omega (
    arith,
    total-set needed s.citizens j (needs (suc i)) (needs i) e,
    total-set lives s.citizens j (needs (suc i)) (needs i) e,
  ),
)

pub AllGone-needed : (cs : List Citizen) → AllGone cs → total needed cs ≡ 0
unfolding total
AllGone-needed [] g = refl
AllGone-needed (needs i ∷ cs) g = absurd g
AllGone-needed (gone ∷ cs) g = omega (arith, AllGone-needed cs g)

pub AllGone-lives : (cs : List Citizen) → AllGone cs → total lives cs ≡ 0
unfolding total
AllGone-lives [] g = refl
AllGone-lives (needs i ∷ cs) g = absurd g
AllGone-lives (gone ∷ cs) g = omega (arith, AllGone-lives cs g)

vaccinator-inviting :
    (all : ℕ) (b : Buffer)
    → b.total_applied_dose ≢ all
    → 0 < b.first_dose
    → 0 < b.sec_dose
    → vaccinator all b ≡ record b { turn = inviting }
unfolding vaccinator is_there_any_dose
vaccinator-inviting all b d f g = ground arith

vaccinator-Fewer :
    (n v all : ℕ) (b : Buffer)
    → b.turn ≡ two_full
    → b.total_applied_dose ≡ all
    → Crew n v all b
    → Fewer n v all b (vaccinator all b)
unfolding vaccinator busy
vaccinator-Fewer n v all b f e k = ground arith

invite-Fewer : (n v all : ℕ) (b : Buffer) → b.total_applied_dose < all → Fewer n v all b (invite b)
unfolding invite
invite-Fewer n v all b h = ground arith

pub invite_moves :
    (n v c all size : ℕ) (input : List ℕ) (s : Clinic)
    → Staffed n v c all size input s
    → AllGone s.citizens
    → s.buffer.turn ≡ inviting
    → Lessens n v all s
invite_moves n v c all size input s k g e =
    let some_left = k.crew.below e in
    by_one n v all s (invites (omega (arith, k.offers, AllGone-needed s.citizens g, some_left)) e)
      tt (invite-Fewer n v all s.buffer (omega (arith, k.offers, some_left)))

-- What a vaccinator needs to end its round with a dose given, or for good.
abbrev pub IsUseful : (all : ℕ) → Buffer → Type 0
IsUseful all b =
    (b.total_applied_dose ≡ all)
    ⊎ ((b.total_applied_dose < all) × (0 < b.first_dose) × (0 < b.sec_dose) × (0 < b.m_citizen))

-- A vaccinator with both its waits behind it lessens the work.
pub deciding :
    (n v all : ℕ) (s d : Clinic)
    → Moves n v all s d
    → work n v all d ≡ work n v all s
    → d.buffer.turn ≡ two_full
    → Crew n v all d.buffer
    → IsUseful all d.buffer
    → Lessens n v all s
unfolding work
deciding n v all s d ms w f k (inl e) = (
  _,
  next ms (acts (decides f) tt),
  omega (arith, w, (vaccinator-Fewer n v all d.buffer f e k).tasks),
)
deciding n v all s d ms w f k (inr (below, first, sec, citizen)) =
    let inv : Buffer = record (d.buffer) { turn = inviting } in
    let decided : Move n v all d (record d { buffer = inv }) =
      subst (λ b. Move n v all d (record d { buffer = b }))
        (vaccinator-inviting all d.buffer (λ e. omega (arith, e)) first sec)
        (acts (decides f) tt) in
    (
      _,
      next (next ms decided) (acts (invites citizen refl) tt),
      omega (arith, w, (invite-Fewer n v all inv below).tasks),
    )

-- The same before the second wait, and before the first.
pub second_wait :
    (n v all : ℕ) (s d : Clinic)
    → Moves n v all s d
    → work n v all d ≡ work n v all s
    → d.buffer.turn ≡ one_full
    → 0 < d.buffer.full
    → Crew n v all d.buffer
    → IsUseful all d.buffer
    → Lessens n v all s
unfolding work
second_wait n v all s d ms w f h k u =
    deciding n v all s _ (next ms (acts (takes_second h f) tt)) w refl
      (Step-Crew n v all d.buffer (takes_second h f) tt k) u

pub first_wait :
    (n v all : ℕ) (s : Clinic)
    → s.buffer.turn ≡ nobody
    → s.buffer.vaccinators_done < v
    → 2 ≤ s.buffer.full
    → Crew n v all s.buffer
    → IsUseful all s.buffer
    → Lessens n v all s
unfolding work
first_wait n v all s f idle h k u =
    let h' : 0 < s.buffer.full = omega (arith, h) in
    second_wait n v all s _ (next here (acts (takes_full h' f) idle)) refl refl (omega (arith, h))
      (Step-Crew n v all s.buffer (takes_full h' f) idle k) u
