-- ===== src/Potato/Strike.antt =====
-- A process of HWs/HW3/main.c writes its pid into the shared memory, over the first entry's.
use mathlib.Core.Path.{subst}
use cse344_coursework.Base.{
  ℕ, zero, suc, ◌+◌, ◌<◌, ◌≤◌, ◌≡◌, ◌≢◌, refl, ap, Bool, true, some, List, [], ◌∷◌, get_elem?,
  arith,
}
use cse344_coursework.Potato.{Process, gpi_with_pid, strike}
use cse344_coursework.Potato.Heat.{times, Warm, Inv}

-- The invariant stays where the process has no other potato.
pub strike-Inv :
    (procs : List Process) (filled struck : Bool) (ready rest flight dealt : List ℕ) (pid : ℕ)
    → ((r : ℕ) → times r rest ≤ times r ready)
    → times pid rest ≡ 0
    → times pid flight ≡ 0
    → Inv (record {
      procs = procs;
      filled = filled;
      ready = ready;
      flight = flight;
      dealt = dealt;
      struck = struck;
    })
    → Inv (record {
      procs = strike pid procs;
      filled = filled;
      ready = rest;
      flight = flight;
      dealt = dealt;
      struck = true;
    })
unfolding strike gpi_with_pid
strike-Inv [] filled struck ready rest flight dealt pid le no_rest no_flight v = record {
  same_length = v.same_length;
  own = λ i p ep there. cc;
  warm = λ i p d ep ed. cc;
  known = λ calm r er. cc;
}
strike-Inv (p0 ∷ procs) filled struck ready rest flight dealt pid le no_rest no_flight v = record {
  same_length = v.same_length;
  own = λ i.
      elim i
        as (λ j.
          (p : Process)
          → get_elem? (record p0 { id = pid } ∷ procs) j ≡ some p
          → 0 < times p.id rest + times p.id flight
          → gpi_with_pid (record p0 { id = pid } ∷ procs) p.id ≡ j) [
            | zero ↦ λ p ep there.
                let same : record p0 { id = pid } ≡ p = cc in
                ground (arith, ap (λ (x : Process). x.id) same)
            | suc j ↦ λ p ep there.
                let ne : pid ≢ p.id = λ s. omega (
                  arith,
                  there,
                  ap (λ r. times r rest) s,
                  ap (λ r. times r flight) s,
                  no_rest,
                  no_flight,
                ) in
                let at = v.own (suc j) p ep (omega (arith, there, le p.id)) in
                ground (arith, ne, at)
          ];
  warm = λ i.
      elim i
        as (λ j.
          (p : Process) (d : ℕ)
          → get_elem? (record p0 { id = pid } ∷ procs) j ≡ some p
          → get_elem? dealt j ≡ some d
          → Warm rest flight p d) [
            | zero ↦ λ p d ep ed.
                let same : record p0 { id = pid } ≡ p = cc in
                let w = v.warm 0 p0 d refl ed in
                subst (λ x. Warm rest flight x d) same
                  (record {
                    kept = omega (arith, w.kept, no_rest, no_flight);
                    low = w.low;
                    hot = λ o. absurd (omega (arith, o, no_flight));
                    small = w.small;
                  })
            | suc j ↦ λ p d ep ed.
                let w = v.warm (suc j) p d ep ed in
                record {
                  kept = omega (arith, w.kept, le p.id);
                  low = w.low;
                  hot = w.hot;
                  small = w.small;
                }
          ];
  known = λ calm r er. cc;
}
