-- ===== src/Potato/Outcome.antt =====
-- How the game of HWs/HW3/main.c goes.
use cse344_coursework.Base.{
  ℕ, zero, suc, ◌-◌, ◌≤◌, ◌<◌, ◌≡◌, refl, ap, false, some, List, [], ◌∷◌, ◌++◌, length, get_elem?,
  set, arith, lt_of_get_elem?, Bytes,
}
use cse344_coursework.Potato.{Process, gpi_with_pid, check_potato_finish, receive, Game, Reach}
use cse344_coursework.Potato.Heat.{times}
use cse344_coursework.Potato.Index.{gpi_with_pid-le, gpi_with_pid-found, minus_one_32-pred}
use cse344_coursework.Potato.Moves.{times-split, Reach-Inv}

get_elem?-there {ℓ} :
    {A : Type ℓ} (xs : List A) (i : ℕ) → i < length xs → (x : A) × (get_elem? xs i ≡ some x)
get_elem?-there [] i h = absurd (omega arith)
get_elem?-there (x ∷ xs) zero h = (x, refl)
get_elem?-there (x ∷ xs) (suc i) h = get_elem?-there xs i (omega arith)

check_potato_finish-hot :
    (procs : List Process) (i : ℕ) (p : Process)
    → get_elem? procs i ≡ some p
    → 1 ≤ p.cool_down
    → check_potato_finish procs ≡ false
unfolding check_potato_finish
check_potato_finish-hot [] i p e h = cc
check_potato_finish-hot (q ∷ procs) zero p e h =
    let same : q ≡ p = cc in ground (arith, ap (λ (x : Process). x.cool_down) same)
check_potato_finish-hot (q ∷ procs) (suc i) p e h =
    ground (arith, check_potato_finish-hot procs i p e h)

-- A potato that comes with a cool-down of 2 or more keeps the game from its end for ever: in no
-- reachable state does `checkPotatoFinish` hold, since the process that receives a potato does not
-- pass it on.
pub Reach-not_finished :
    (file : Bytes) (n : ℕ) (g : Game) (i d : ℕ)
    → Reach file n g
    → get_elem? g.dealt i ≡ some d
    → 2 ≤ d
    → check_potato_finish g.procs ≡ false
Reach-not_finished file n g i d r ed two =
    let v = Reach-Inv r in
    let lt : i < length g.procs = omega (arith, lt_of_get_elem? g.dealt i ed, v.same_length) in
    let (p, ep) = get_elem?-there g.procs i lt in
    check_potato_finish-hot g.procs i p ep (omega (arith, (v.warm i p d ep ed).kept, two))

-- As long as no pid has been written into the shared memory, a process that reads a pid from a fifo finds an entry for it, and the cool-down there is at least
-- one before it is counted down, so that the unsigned number does not wrap.
pub Reach-receive :
    (file : Bytes) (n : ℕ) (g : Game) (before after : List ℕ) (rec : ℕ)
    → Reach file n g
    → g.struck ≡ false
    → g.flight ≡ before ++ (rec ∷ after)
    → (p : Process) × (p.id ≡ rec)
      × (1 ≤ p.cool_down)
      × (receive g.procs rec
          ≡ some
              (set g.procs (gpi_with_pid g.procs rec) (record p { cool_down = p.cool_down - 1 })))
unfolding receive
Reach-receive file n g before after rec r calm e =
    let v = Reach-Inv r in
    let t = times-split rec rec before after g.flight e in
    let there : 1 ≤ times rec g.flight = ground (arith, t) in
    let lt : gpi_with_pid g.procs rec < length g.procs =
      ground (arith, there, v.known calm rec, gpi_with_pid-le g.procs rec) in
    let (p, ep, id) = gpi_with_pid-found g.procs rec lt in
    let (d, ed) =
      get_elem?-there g.dealt (gpi_with_pid g.procs rec) (omega (arith, lt, v.same_length)) in
    let w = v.warm (gpi_with_pid g.procs rec) p d ep ed in
    let there' : 0 < times p.id g.flight = omega (arith, there, ap (λ r'. times r' g.flight) id) in
    let hot : 1 ≤ p.cool_down = omega (arith, w.kept, w.hot there', there') in
    (p, id, hot, rw (ep, minus_one_32-pred p.cool_down hot (omega (arith, w.low, w.small))))
