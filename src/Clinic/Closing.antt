-- ===== src/Clinic/Closing.antt =====
-- The clinic of Midterm/main.c can always close.
use cse344_coursework.Base.{
  ℕ, zero, suc, ◌+◌, ◌*◌, ◌≤◌, ◌<◌, ◌≡◌, ◌⊎◌, inl, inr, refl, sym, ap, ◌∙◌, true, List, [], ◌∷◌,
  length, arith,
}
use cse344_coursework.Clinic.{Turn, nobody, one_full, two_full, inviting, Buffer, m_free}
use cse344_coursework.Clinic.Doses.{Inv, occurrences, waits}
use cse344_coursework.Clinic.Census.{
  busy, needed, total, Crew, Staffed, Moves-Staffed, opened-Staffed,
}
use cse344_coursework.Clinic.Rounds.{
  work, Lessens, nurse_moves, nurse_cases, one_lives, citizen_moves, AllGone-lives, AllGone-needed,
  invite_moves, second_wait, first_wait, deciding, IsUseful,
}
use cse344_coursework.Clinic.Staff.{Clinic, opened, Moves, here, next, AllGone, IsClosed}

lt_cases : (m n : ℕ) → (m < n) ⊎ (n ≤ m)
lt_cases m n = ground arith

occurrences_empty : (c : ℕ) (i : List ℕ) → length i ≡ 0 → occurrences c i ≡ 0
unfolding occurrences
occurrences_empty c [] e = refl
occurrences_empty c (x ∷ i) e = let no : ⊥ = omega (arith, e) in absurd no

-- What the nurses have done when none of them can move.
pub record Brought (n all : ℕ) (b : Buffer) : Type 0 where
  pub two : 2 ≤ b.first_dose + b.sec_dose + b.nurse_termination
  pub useful :
      (b.total_applied_dose ≡ all)
      ⊎ ((b.total_applied_dose < all) × (0 < b.first_dose) × (0 < b.sec_dose))
  pub ended : b.total_applied_dose ≡ all → b.nurse_termination ≡ n

all-Brought :
    (n v all size : ℕ) (input : List ℕ) (b : Buffer)
    → 2 ≤ n
    → n ≤ size
    → all < size
    → occurrences b'1' input ≡ all
    → occurrences b'2' input ≡ all
    → Inv size input b
    → Crew n v all b
    → b.holding ≡ 0
    → (b.nurse_termination ≡ n) ⊎ (b.empty ≡ 0)
    → Brought n all b
all-Brought n v all size input b n2 ns room o1 o2 d k h st = elim (lt_cases 0 b.nurse_termination) [
  | inl some_done ↦
      let len = k.all_read (k.at_end some_done) in
      let e1 = occurrences_empty b'1' b.input len in
      let e2 = occurrences_empty b'2' b.input len in
      ground (arith, d.firsts, d.seconds, d.slots, e1, e2)
  | inr none_done ↦ ground (arith, d.firsts, d.seconds, d.slots)
]

pub Moves-trans :
    {n v all : ℕ} {s d e : Clinic} → Moves n v all s d → Moves n v all d e → Moves n v all s e
Moves-trans ms here = ms
Moves-trans ms (next ms' m) = next (Moves-trans ms ms') m

module _ (n v c all size : ℕ) (input : List ℕ)
    (enough : (2 ≤ n) × (n ≤ size) × (1 ≤ v) × (all < size)) (firsts : occurrences b'1' input ≡ all)
    (seconds : occurrences b'2' input ≡ all) where
  -- No citizen is left and no nurse can move: a vaccinator goes on, or the clinic is closed.
  vaccinator_moves :
      (s : Clinic)
      → Staffed n v c all size input s
      → AllGone s.citizens
      → Brought n all s.buffer
      → m_free s.buffer.turn ≡ true
      → IsClosed n v all c s ⊎ Lessens n v all s
  unfolding work busy waits
  vaccinator_moves s k g b free = at s.buffer.turn refl
    where
      none_needed : total needed s.citizens ≡ 0
      none_needed = AllGone-needed s.citizens g

      useful : IsUseful all s.buffer
      useful = elim b.useful [
        | inl e ↦ inl e
        | inr (l, f, g) ↦ inr (l, f, g, omega (arith, k.offers, none_needed))
      ]

      at : (t : Turn) → s.buffer.turn ≡ t → IsClosed n v all c s ⊎ Lessens n v all s
      at nobody e = elim (lt_cases s.buffer.vaccinators_done v) [
        | inl idle ↦ inr (
            first_wait n v all s e idle (omega (arith, k.doses.filled, b.two, ap waits e)) k.crew
              useful)
        | inr ended ↦
            let all_given = k.crew.done (omega (arith, ended, enough)) in
            inl (record {
              nurses = b.ended all_given;
              vaccinators = omega (arith, k.crew.vaccinators, ended);
              applied = all_given;
              citizens_gone = g;
              counted = omega (arith, k.counted, AllGone-lives s.citizens g);
            })
      ]
      at one_full e = inr (
          second_wait n v all s s here refl e (omega (arith, k.doses.filled, b.two, ap waits e))
            k.crew useful)
      at two_full e = inr (deciding n v all s s here refl e k.crew useful)
      at inviting e = let no : m_free inviting ≡ true = ap m_free (sym e) ∙ free in cc

  nurse_or_vaccinator :
      (s : Clinic)
      → Staffed n v c all size input s
      → AllGone s.citizens
      → m_free s.buffer.turn ≡ true
      → IsClosed n v all c s ⊎ Lessens n v all s
  nurse_or_vaccinator s k g free = elim (nurse_cases n s.buffer k.crew.nurses) [
    | inl h ↦ inr (nurse_moves n v c all size input s k free h)
    | inr (h, st) ↦
        vaccinator_moves s k g
          (all-Brought n v all size input s.buffer enough.0 enough.1 enough.3 firsts seconds k.doses
            k.crew h st)
          free
  ]

  -- From every state there is a move that lessens the work, unless the clinic is closed.
  moves_on :
      (s : Clinic) → Staffed n v c all size input s → IsClosed n v all c s ⊎ Lessens n v all s
  moves_on s k = elim (one_lives s.citizens) [
    | inl g ↦ with_turn g s.buffer.turn refl
    | inr (j, i, e) ↦ inr (citizen_moves n v all s j i e)
  ]
    where
      with_turn :
          AllGone s.citizens
          → (t : Turn) → s.buffer.turn ≡ t
          → IsClosed n v all c s ⊎ Lessens n v all s
      with_turn g nobody e = nurse_or_vaccinator s k g (ap m_free e)
      with_turn g one_full e = nurse_or_vaccinator s k g (ap m_free e)
      with_turn g two_full e = nurse_or_vaccinator s k g (ap m_free e)
      with_turn g inviting e = inr (invite_moves n v c all size input s k g e)

  close_within :
      (k : ℕ) (s : Clinic)
      → work n v all s < k
      → Staffed n v c all size input s
      → (e : Clinic) × Moves n v all s e × IsClosed n v all c e
  close_within zero s w k = absurd (omega (arith, w))
  close_within (suc f) s w k = elim (moves_on s k) [
    | inl closed ↦ (s, here, closed)
    | inr (d, ms, less) ↦
        let (e, ms', closed) = close_within f d (omega (arith, w, less)) (Moves-Staffed ms k) in
        (e, Moves-trans ms ms', closed)
  ]

-- From every state that the clinic reaches without SIGINT, its processes can go on so that all of
-- them end, every dose given: if the file has as many vaccines of each kind as the citizens need, if
-- the buffer has more places than that, and if there are two nurses or more, but not more of them
-- than places in the buffer, and a vaccinator.
pub can_close :
    (n v c t size : ℕ) (input : List ℕ) (s : Clinic)
    → (2 ≤ n) × (n ≤ size) × (1 ≤ v) × (c * t < size)
    → occurrences b'1' input ≡ c * t
    → occurrences b'2' input ≡ c * t
    → Moves n v (c * t) (opened c t size input) s
    → (e : Clinic) × Moves n v (c * t) s e × IsClosed n v (c * t) c e
can_close n v c t size input s enough o1 o2 ms =
    close_within n v c (c * t) size input enough o1 o2 (suc (work n v (c * t) s)) s (omega arith)
      (Moves-Staffed ms (opened-Staffed n v c t size input))

-- With more nurses than places in the buffer the clinic never closes, whatever its processes do.
pub never_closes :
    (n v c t size : ℕ) (input : List ℕ) (e : Clinic)
    → size < n
    → Moves n v (c * t) (opened c t size input) e
    → ¬ IsClosed n v (c * t) c e
never_closes n v c t size input e h ms closed =
    let k = Moves-Staffed ms (opened-Staffed n v c t size input) in
    omega (arith, h, closed.nurses, k.doses.slots)
