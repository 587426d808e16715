-- ===== src/Poly/Signals/Order.antt =====
-- The order of the rounds that the signals of HWs/HW2/main.c give.
use cse344_coursework.Base.{
  ℕ, ◌+◌, ◌≡◌, inl, inr, refl, sym, ◌∙◌, Bool, true, false, some, get_elem?, set, length,
  length-set, arith, get_elem?-lt,
}
use mathlib.Core.Path.{subst}
use cse344_coursework.Poly.Signals.{
  first_round, waiting, told, resting, second_round, ended, Child, sends_first, suspended,
  sends_second, System, at_place, Step, ends_first, hears_first, answers, hears_second, ends,
  kills_first, hears, prints_first, kills_second, prints_second,
}
use cse344_coursework.Poly.Signals.Protocol.{
  Quiet, Every, Inv, ends_first-Good, hears_first-Good, hears_second-Good, ends-Good, lt_cases,
  Every-set, Inv-child, told-suspended, Fresh-Answers, Rested-Later, AllEnded-get, Every-at,
  Quiet-at,
}

answers-Inv :
    (n : ℕ) (s : System) (k : ℕ) (u : Bool)
    → get_elem? s.children k ≡ some (at_place told u)
    → Inv n s
    → Inv n (record s { usr2 = true; children = set s.children k (at_place resting u) })
answers-Inv n s k u e inv =
    let (at, off) = told-suspended s.parent s.usr2 k u (inv.each k (at_place told u) e) in
    record {
      each =
          subst (λ p. Every p true (set s.children k (at_place resting u))) (sym at)
            (Every-set (suspended k) (suspended k) s.usr2 true s.children k (at_place told u)
              (at_place resting u) e (Every-at inv at refl)
              (λ g. ((λ l. absurd (omega (arith, l))), (λ l. absurd (omega (arith, l))), λ _. off))
              (λ j c d g. (g.0, g.1, λ eq. absurd (d eq))));
      quiet = subst (λ p. Quiet p true n) (sym at) (Quiet-at inv at);
      count = length-set s.children k (at_place resting u) ∙ inv.count;
    }

kills_first-Inv :
    (n : ℕ) (s : System) (i : ℕ) (c : Child)
    → s.parent ≡ sends_first i
    → get_elem? s.children i ≡ some c
    → Inv n s
    → Inv n
        (record s { parent = suspended i; children = set s.children i (record c { usr1 = true }) })
kills_first-Inv n s i c at e inv =
    let (off, bound) = Quiet-at inv at in
    record {
      each =
          subst (λ v. Every (suspended i) v (set s.children i (record c { usr1 = true }))) (sym off)
            (Every-set (sends_first i) (suspended i) false false s.children i c
              (record c { usr1 = true }) e (Every-at inv at off)
              (λ g. (
                (λ l. absurd (omega (arith, l))),
                (λ l. absurd (omega (arith, l))),
                λ _. Fresh-Answers c.place c.usr1 (g.1 (omega arith)),
              ))
              (λ j d ne g. (g.0, (λ l. g.1 (omega (arith, l))), λ eq. absurd (ne eq))));
      quiet = omega (arith, get_elem?-lt s.children i e, inv.count);
      count = length-set s.children i (record c { usr1 = true }) ∙ inv.count;
    }

hears-Inv :
    (n : ℕ) (s : System) (i : ℕ)
    → s.parent ≡ suspended i
    → s.usr2 ≡ true
    → Inv n s
    → Inv n (record s { parent = sends_first (i + 1); usr2 = false })
hears-Inv n s i at on inv =
    let bound = Quiet-at inv at in
    record {
      each = λ k c e.
          let g = Every-at inv at on k c e in
          (
            (λ l. elim (lt_cases k i) [
              | inl below ↦ g.0 below
              | inr not_below ↦ g.2 (omega (arith, l, not_below))
            ]),
            λ l. g.1 (omega (arith, l)),
          );
      quiet = (refl, omega (arith, bound));
      count = inv.count;
    }

prints_first-Inv :
    (n : ℕ) (s : System)
    → s.parent ≡ sends_first (length s.children)
    → Inv n s
    → Inv n (record s { parent = sends_second 0 })
prints_first-Inv n s at inv =
    let (off, bound) = Quiet-at inv at in
    record {
      each = λ k c e. (
        (λ l. absurd (omega (arith, l))),
        λ l. (Every-at inv at off k c e).0 (get_elem?-lt s.children k e),
      );
      quiet = (off, omega arith);
      count = inv.count;
    }

kills_second-Inv :
    (n : ℕ) (s : System) (i : ℕ) (c : Child)
    → s.parent ≡ sends_second i
    → get_elem? s.children i ≡ some c
    → Inv n s
    → Inv n (record s {
      parent = sends_second (i + 1);
      children = set s.children i (record c { usr1 = true });
    })
kills_second-Inv n s i c at e inv =
    let (off, bound) = Quiet-at inv at in
    record {
      each =
          subst (λ v. Every (sends_second (i + 1)) v (set s.children i (record c { usr1 = true })))
            (sym off)
            (Every-set (sends_second i) (sends_second (i + 1)) false false s.children i c
              (record c { usr1 = true }) e (Every-at inv at off)
              (λ g. (
                (λ _. Rested-Later c.place c.usr1 (g.1 (omega arith))),
                λ l. absurd (omega (arith, l)),
              ))
              (λ j d ne g. ((λ l. g.0 (omega (arith, l, ne))), λ l. g.1 (omega (arith, l)))));
      quiet = (off, omega (arith, get_elem?-lt s.children i e, inv.count));
      count = length-set s.children i (record c { usr1 = true }) ∙ inv.count;
    }

pub Step-Inv : (n : ℕ) (s : System) {t : System} → Step s t → Inv n s → Inv n t
Step-Inv n s (ends_first k u e) inv =
    Inv-child k (at_place first_round u) (at_place waiting u) e
      (ends_first-Good s.parent s.usr2 k u) inv
Step-Inv n s (hears_first k e) inv =
    Inv-child k (at_place waiting true) (at_place told false) e (hears_first-Good s.parent s.usr2 k)
      inv
Step-Inv n s (answers k u e) inv = answers-Inv n s k u e inv
Step-Inv n s (hears_second k e) inv =
    Inv-child k (at_place resting true) (at_place second_round false) e
      (hears_second-Good s.parent s.usr2 k) inv
Step-Inv n s (ends k u e) inv =
    Inv-child k (at_place second_round u) (at_place ended u) e (ends-Good s.parent s.usr2 k u) inv
Step-Inv n s (kills_first i c at e) inv = kills_first-Inv n s i c at e inv
Step-Inv n s (hears i at on) inv = hears-Inv n s i at on inv
Step-Inv n s (prints_first at) inv = prints_first-Inv n s at inv
Step-Inv n s (kills_second i c at e) inv = kills_second-Inv n s i c at e inv
Step-Inv n s (prints_second at all) inv = record {
  each = λ k c e. AllEnded-get s.children k c all e;
  quiet = tt;
  count = inv.count;
}
