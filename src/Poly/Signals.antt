-- ===== src/Poly/Signals.antt =====
-- The processes of HWs/HW2/main.c and the signals between them. Every signal but SIGINT is blocked
-- outside sigsuspend, so that it stays pending, and pending signals of a kind are one. SIGINT and
-- failing system calls are not modelled.
pub mod Order
pub mod Ending
pub mod Phases
pub mod Protocol
use cse344_coursework.Base.{
  ℕ, suc, ◌+◌, ◌<◌, ◌≡◌, Bool, true, false, some, List, [], ◌∷◌, get_elem?, set, length, replicate,
}

-- Where a child is: in the first round, in the first sigsuspend, behind it, in the second sigsuspend,
-- in the second round, and at its end.
pub data Place : Type 0 where
  first_round waiting told resting second_round ended : Place

pub record Child : Type 0 where
  pub place : Place
  pub usr1 : Bool

-- Where the parent is: it sends the first SIGUSR1 to a child, waits for its SIGUSR2, sends the second
-- one, waits for the end of the children, and has printed the second error. The first error is printed
-- before the second SIGUSR1 of child 0.
pub data Parent : Type 0 where
  sends_first : ℕ → Parent
  suspended : ℕ → Parent
  sends_second : ℕ → Parent
  printed : Parent

pub record System : Type 0 where
  pub parent : Parent
  pub usr2 : Bool
  pub children : List Child

abbrev pub at_place : Place → Bool → Child
at_place place usr1 = record { place = place; usr1 = usr1 }

abbrev pub AllEnded : List Child → Type 0
AllEnded [] = Unit
AllEnded (c ∷ cs) = (c.place ≡ ended) × AllEnded cs

pub data Step (s : System) : System → Type 0 where
  -- A child, with what is pending for it: the end of a round, and the two waits.
  ends_first :
      (k : ℕ) (u : Bool)
      → get_elem? s.children k ≡ some (at_place first_round u)
      → Step s (record s { children = set s.children k (at_place waiting u) })
  hears_first :
      (k : ℕ)
      → get_elem? s.children k ≡ some (at_place waiting true)
      → Step s (record s { children = set s.children k (at_place told false) })
  answers :
      (k : ℕ) (u : Bool)
      → get_elem? s.children k ≡ some (at_place told u)
      → Step s (record s { usr2 = true; children = set s.children k (at_place resting u) })
  hears_second :
      (k : ℕ)
      → get_elem? s.children k ≡ some (at_place resting true)
      → Step s (record s { children = set s.children k (at_place second_round false) })
  ends :
      (k : ℕ) (u : Bool)
      → get_elem? s.children k ≡ some (at_place second_round u)
      → Step s (record s { children = set s.children k (at_place ended u) })
  -- The parent.
  kills_first :
      (i : ℕ) (c : Child)
      → s.parent ≡ sends_first i
      → get_elem? s.children i ≡ some c
      → Step s (record s {
        parent = suspended i;
        children = set s.children i (record c { usr1 = true });
      })
  hears :
      (i : ℕ)
      → s.parent ≡ suspended i
      → s.usr2 ≡ true
      → Step s (record s { parent = sends_first (i + 1); usr2 = false })
  -- `calcErrPrint(fptr, 1)`
  prints_first :
      s.parent ≡ sends_first (length s.children) → Step s (record s { parent = sends_second 0 })
  kills_second :
      (i : ℕ) (c : Child)
      → s.parent ≡ sends_second i
      → get_elem? s.children i ≡ some c
      → Step s (record s {
        parent = sends_second (i + 1);
        children = set s.children i (record c { usr1 = true });
      })
  -- `wait` until there is no child, and `calcErrPrint(fptr, 2)`.
  prints_second :
      s.parent ≡ sends_second (length s.children)
      → AllEnded s.children
      → Step s (record s { parent = printed })

-- The parent has forked `n` children.
abbrev pub forked : ℕ → System
forked n = record {
  parent = sends_first 0;
  usr2 = false;
  children = replicate n (at_place first_round false);
}

pub data Reach (n : ℕ) : System → Type 0 where
  start : Reach n (forked n)
  next : {s t : System} → Reach n s → Step s t → Reach n t

-- What is reached in a number of steps.
pub data Run (n : ℕ) : ℕ → System → Type 0 where
  at_start : Run n 0 (forked n)
  one_more : {k : ℕ} {s t : System} → Run n k s → Step s t → Run n (suc k) t
