-- ===== src/Potato/Moves.antt =====
-- Every step of the game of HWs/HW3/main.c keeps the invariant of the cool-downs.
use mathlib.Core.Path.{subst}
use cse344_coursework.Base.{
  get_elem?-some, ℕ, zero, suc, ◌+◌, ◌-◌, ◌≤◌, ◌<◌, ◌^◌, ◌%◌, ◌≡◌, refl, ◌⊎◌, ap, ◌∙◌, sym, true,
  some, List, [], ◌∷◌, ◌++◌, get_elem?, set, arith, ◌==◌, ==_iff, ltb, if◌then◌else◌, Bool-cases,
  inl, inr, bind-eq-some, length-set, lt_of_get_elem?, Bytes,
}
use cse344_coursework.Potato.{
  Process, gpi_with_pid, get_process_index, minus_one_32, receive, register, starts_hot, Game, Step,
  enter, sends, sends_into_memory, sends_elsewhere, has_none, receives, Reach, here, next,
}
use cse344_coursework.Potato.Enter.{enter-Inv}
use cse344_coursework.Potato.Heat.{times, times-absent, times-append, Warm, Inv}
use cse344_coursework.Potato.Strike.{strike-Inv}
use cse344_coursework.Potato.Index.{gpi_with_pid-found, gpi_with_pid-set, minus_one_32-pred}

pub times-split :
    (r x : ℕ) (before after xs : List ℕ)
    → xs ≡ before ++ (x ∷ after)
    → times r xs ≡ times r (before ++ after) + (if x == r then 1 else 0)
times-split r x before after xs e =
    ap (times r) e ∙ omega (arith, times-append r before (x ∷ after), times-append r before after)

-- Fewer processes that are ready.
ready-Inv :
    (g : Game) (ready : List ℕ)
    → ((r : ℕ) → times r ready ≤ times r g.ready)
    → Inv g
    → Inv (record g { ready = ready })
ready-Inv g ready le v = record {
  same_length = v.same_length;
  own = λ i p ep there. v.own i p ep (omega (arith, there, le p.id));
  warm = λ i p d ep ed.
      let w = v.warm i p d ep ed in
      record { kept = omega (arith, w.kept, le p.id); low = w.low; hot = w.hot; small = w.small };
  known = λ calm r e. omega (arith, v.known calm r e, le r);
}

split-le :
    (g : Game) (before after : List ℕ) (pid : ℕ)
    → g.ready ≡ before ++ (pid ∷ after)
    → (r : ℕ) → times r (before ++ after) ≤ times r g.ready
split-le g before after pid e r = ground (arith, times-split r pid before after g.ready e)

-- The process that is found has the potato that it sends.
starts_hot-found :
    (g : Game) (pid : ℕ)
    → starts_hot g.procs pid ≡ some true
    → (p : Process) × (get_elem? g.procs (gpi_with_pid g.procs pid) ≡ some p) × (1 ≤ p.cool_down)
unfolding starts_hot get_process_index
starts_hot-found g pid e =
    let (p, ep, h) =
      bind-eq-some (get_elem? g.procs (gpi_with_pid g.procs pid)) (λ p. some (ltb 0 p.cool_down))
        e in
    (p, ep, ground (arith, h))

sends-Inv :
    (g : Game) (before after : List ℕ) (pid : ℕ)
    → g.ready ≡ before ++ (pid ∷ after)
    → starts_hot g.procs pid ≡ some true
    → Inv g
    → Inv (record g { ready = before ++ after; flight = g.flight ++ (pid ∷ []) })
sends-Inv g before after pid e hot v =
    let (q, eq, warm_q) = starts_hot-found g pid hot in
    let t = λ (r : ℕ). times-split r pid before after g.ready e in
    let f = λ (r : ℕ). times-append r g.flight (pid ∷ []) in
    record {
      same_length = v.same_length;
      own = λ i p ep there. v.own i p ep (omega (arith, there, t p.id, f p.id));
      warm = λ i p d ep ed.
          let w = v.warm i p d ep ed in
          record {
            kept = omega (arith, w.kept, t p.id, f p.id);
            low = w.low;
            hot = λ h. elim (Bool-cases (pid == p.id)) [
              | inl s ↦
                  let same : gpi_with_pid g.procs pid ≡ i =
                    ap (gpi_with_pid g.procs) ((==_iff pid p.id).0 s)
                    ∙ v.own i p ep (ground (arith, t p.id, s)) in
                  let qp : q ≡ p = cc (ap (get_elem? g.procs) same, eq, ep) in
                  omega (arith, w.low, ap (λ (x : Process). x.cool_down) qp, warm_q)
              | inr n ↦ w.hot (ground (arith, h, f p.id, n))
            ];
            small = w.small;
          };
      known = λ calm r er. omega (arith, v.known calm r er, t r, f r);
    }

get_elem?-set_cases {ℓ} :
    {A : Type ℓ} (xs : List A) (k : ℕ) (y : A) (i : ℕ) {p : A}
    → get_elem? (set xs k y) i ≡ some p
    → ((i ≡ k) × (p ≡ y)) ⊎ (get_elem? xs i ≡ some p)
get_elem?-set_cases [] k y i e = inr e
get_elem?-set_cases (x ∷ xs) zero y zero e = inl (refl, (let s : y ≡ _ = cc in sym s))
get_elem?-set_cases (x ∷ xs) zero y (suc i) e = inr e
get_elem?-set_cases (x ∷ xs) (suc k) y zero e = inr e
get_elem?-set_cases (x ∷ xs) (suc k) y (suc i) e = elim (get_elem?-set_cases xs k y i e) [
  | inl (h, h') ↦ inl (ap suc h, h')
  | inr h ↦ inr h
]

receives-Warm :
    (ready flight rest : List ℕ) (q : Process) (d rec : ℕ)
    → q.id ≡ rec
    → ((r : ℕ) → times r flight ≡ times r rest + (if rec == r then 1 else 0))
    → Warm ready flight q d
    → Warm ready rest (record q { cool_down = minus_one_32 q.cool_down }) d
receives-Warm ready flight rest q d rec id t w =
    let there : times q.id flight ≡ times q.id rest + 1 = ground (arith, t q.id, id) in
    let dealt : 1 ≤ d = w.hot (omega (arith, there)) in
    let less : minus_one_32 q.cool_down ≡ q.cool_down - 1 =
      minus_one_32-pred q.cool_down (omega (arith, w.kept, there, dealt))
        (omega (arith, w.low, w.small)) in
    record {
      kept = omega (arith, w.kept, there, less, dealt);
      low = omega (arith, w.low, less);
      hot = λ o. dealt;
      small = w.small;
    }

receives-Inv :
    (g : Game) (before after : List ℕ) (rec : ℕ) (q : Process)
    → g.flight ≡ before ++ (rec ∷ after)
    → get_elem? g.procs (gpi_with_pid g.procs rec) ≡ some q
    → q.id ≡ rec
    → Inv g
    → Inv (record g {
      procs =
          set g.procs
            (gpi_with_pid g.procs rec)
            (record q { cool_down = minus_one_32 q.cool_down });
      flight = before ++ after;
    })
receives-Inv g before after rec q e eq id v =
    let k = gpi_with_pid g.procs rec in
    let q' = record q { cool_down = minus_one_32 q.cool_down } in
    let t = λ (r : ℕ). times-split r rec before after g.flight e in
    let same = λ (r : ℕ). gpi_with_pid-set g.procs k q (minus_one_32 q.cool_down) r eq in
    let more : (r : ℕ)
        → 0 < times r g.ready + times r (before ++ after)
        → 0 < times r g.ready + times r g.flight =
      λ r h. omega (arith, h, t r) in
    record {
      same_length = v.same_length ∙ sym (length-set g.procs k q');
      own = λ i p ep there.
          let before_there = more p.id there in
          same p.id ∙ elim (get_elem?-set_cases g.procs k q' i ep) [
            | inl (ik, pq) ↦
                let id_same = ap (λ (x : Process). x.id) pq in
                ap (gpi_with_pid g.procs) id_same
                ∙ v.own k q eq
                    (subst (λ r. 0 < times r g.ready + times r g.flight) id_same before_there)
                ∙ sym ik
            | inr h ↦ v.own i p h before_there
          ];
      warm = λ i p d ep ed. elim (get_elem?-set_cases g.procs k q' i ep) [
        | inl (ik, pq) ↦
            let w = v.warm k q d eq (ap (get_elem? g.dealt) (sym ik) ∙ ed) in
            subst (λ x. Warm g.ready (before ++ after) x d) (sym pq)
              (receives-Warm g.ready g.flight (before ++ after) q d rec id t w)
        | inr h ↦
            let w = v.warm i p d h ed in
            record {
              kept = omega (arith, w.kept, t p.id);
              low = w.low;
              hot = λ o. w.hot (omega (arith, o, t p.id));
              small = w.small;
            }
      ];
      known = λ calm r er.
          omega (arith, v.known calm r (sym (same r) ∙ er ∙ length-set g.procs k q'), t r);
    }

-- The process that writes into the memory has no other potato.
alone :
    (g : Game) (before after : List ℕ) (pid : ℕ)
    → g.ready ≡ before ++ (pid ∷ after)
    → starts_hot g.procs pid ≡ some true
    → Inv g
    → (times pid (before ++ after) ≡ 0) × (times pid g.flight ≡ 0)
alone g before after pid e hot v =
    let (q, eq, _) = starts_hot-found g pid hot in
    let lt = lt_of_get_elem? g.procs (gpi_with_pid g.procs pid) eq in
    let (p, ep, id) = gpi_with_pid-found g.procs pid lt in
    let (d, ed) =
      get_elem?-some g.dealt (gpi_with_pid g.procs pid) (omega (arith, lt, v.same_length)) in
    let w = v.warm (gpi_with_pid g.procs pid) p d ep ed in
    let t = times-split pid pid before after g.ready e in
    let k : times pid g.ready + times pid g.flight + d ≤ p.cool_down + 1 =
      subst (λ r. times r g.ready + times r g.flight + d ≤ p.cool_down + 1) id w.kept in
    (ground (arith, k, w.low, t), ground (arith, k, w.low, t))

mod_small : (h : ℕ) → h % 2 ^ 32 < 4294967296
mod_small h = omega arith

Step-Inv : {file : Bytes} {n : ℕ} {g h : Game} → Step file n g h → Inv g → Inv h
unfolding register receive
Step-Inv {g = g} (enter pid has_potato fresh no_ready no_flight) v =
    enter-Inv g _ _ fresh (times-absent pid g.ready no_ready) (times-absent pid g.flight no_flight)
      (mod_small has_potato) v
Step-Inv {g = g} (sends_into_memory before after pid f e hot) v =
    let (no_rest, no_flight) = alone g before after pid e hot v in
    strike-Inv g.procs g.filled g.struck g.ready (before ++ after) g.flight g.dealt pid
      (split-le g before after pid e) no_rest no_flight v
Step-Inv {g = g} (sends before after pid f e hot) v = sends-Inv g before after pid e hot v
Step-Inv {g = g} (sends_elsewhere before after pid f e hot) v =
    ready-Inv g (before ++ after) (split-le g before after pid e) v
Step-Inv {g = g} (has_none before after pid f e hot) v =
    ready-Inv g (before ++ after) (split-le g before after pid e) v
Step-Inv {g = g} (receives {procs = procs} before after rec f e got) v =
    let (q, eq, same) = bind-eq-some (get_elem? g.procs (gpi_with_pid g.procs rec)) _ got in
    let (p, ep, id) =
      gpi_with_pid-found g.procs rec (lt_of_get_elem? g.procs (gpi_with_pid g.procs rec) eq) in
    let pq : p ≡ q = cc in
    let i = receives-Inv g before after rec q e eq (ap (λ (x : Process). x.id) (sym pq) ∙ id) v in
    let result : set g.procs (gpi_with_pid g.procs rec)
          (record q { cool_down = minus_one_32 q.cool_down })
        ≡ procs =
      cc in
    subst (λ ps. Inv (record g { procs = ps; flight = before ++ after })) result i

pub Reach-Inv : {file : Bytes} {n : ℕ} {g : Game} → Reach file n g → Inv g
Reach-Inv here = record {
  same_length = refl;
  own = λ i p e there. cc;
  warm = λ i p d e ed. cc;
  known = λ calm r e. refl;
}
Reach-Inv (next r st) = Step-Inv st (Reach-Inv r)
