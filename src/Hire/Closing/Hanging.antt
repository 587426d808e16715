-- ===== src/Hire/Closing/Hanging.antt =====
-- HWs/HW4/main.c can wait at finito for ever.
use mathlib.Core.Path.{subst}
use cse344_coursework.Base.{ℕ, zero, suc, ◌-◌, ◌<◌, ◌≤◌, ◌≡◌, refl, true, false, arith}
use cse344_coursework.Hire.Closing.{
  at_finito, Office, finish_work, Step, reads, reads_eof, reads_broke, gives, no_more, closes,
  runs_out, begins, drops, solves, opening, Reach, here, next,
}

-- The first homeworks are solved one by one, each before the next one is read.
abbrev one_by_one : (n done : ℕ) → Office
one_by_one n done = record (opening n) { unread = n - done; solved = done }

one_by_one-Reach : (n done : ℕ) → done ≤ n → Reach n (one_by_one n done)
unfolding finish_work
one_by_one-Reach n zero h =
    subst (λ m. Reach n (record (opening n) { unread = m })) (omega arith) here
one_by_one-Reach n (suc done) h =
    let before = one_by_one-Reach n done (omega (arith, h)) in
    let left : 0 < n - done = omega (arith, h) in
    let s1 = next before (reads refl left) in
    let s2 = next s1 (gives refl (omega arith) (omega arith)) in
    let s3 = next s2 (begins (omega arith) refl) in
    subst (Reach n) (ground arith) (next s3 (solves (omega arith)))

-- The main thread waits for finito, and all homeworks were handed in.
abbrev pub waiting_for_ever : ℕ → Office
waiting_for_ever n = record (opening n) {
  unread = 0;
  reading = false;
  eof = true;
  main = at_finito;
  solved = n;
}

waiting_for_ever-stuck : (n : ℕ) (p : Office) → ¬ Step (waiting_for_ever n) p
waiting_for_ever-stuck n _ (reads r u) = cc
waiting_for_ever-stuck n _ (reads_eof r u) = cc
waiting_for_ever-stuck n _ (reads_broke r u) = cc
waiting_for_ever-stuck n _ (gives m w q) = omega (arith, w)
waiting_for_ever-stuck n _ (no_more m w e q) = omega (arith, w)
waiting_for_ever-stuck n _ (closes m f) = omega (arith, f)
waiting_for_ever-stuck n _ (runs_out m w q) = omega (arith, w)
waiting_for_ever-stuck n _ (begins g f) = omega (arith, g)
waiting_for_ever-stuck n _ (drops g f) = omega (arith, g)
waiting_for_ever-stuck n _ (solves l) = omega (arith, l)

-- Whatever the number of homeworks, the program can hang: there is a run in which every homework is
-- handed in before the end of the file is found, and then the main thread waits at finito and no thread
-- can do a step.
pub can_hang :
    (n : ℕ)
    → (o : Office) × Reach n o × (o.main ≡ at_finito) × (o.solved ≡ n) × ((p : Office) → ¬ Step o p)
can_hang n =
    let all = one_by_one-Reach n n (omega arith) in
    let read = next all (reads_eof refl (omega arith)) in
    (
      waiting_for_ever n,
      subst (Reach n) (ground arith) (next read (no_more refl (omega arith) refl refl)),
      refl,
      refl,
      waiting_for_ever-stuck n,
    )
