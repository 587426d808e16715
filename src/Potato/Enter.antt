-- ===== src/Potato/Enter.antt =====
-- A process that enters the game of HWs/HW3/main.c keeps the invariant of the cool-downs.
use mathlib.Core.Path.{subst}
use cse344_coursework.Base.{
  ℕ, ◌<◌, ◌≡◌, ◌≢◌, some, get_elem?, ap, ◌∙◌, sym, Bool, List, [], ◌∷◌, ◌++◌, length, arith, ltb,
  Bool-cases, inl, inr, length-append, lt_of_get_elem?,
}
use cse344_coursework.Potato.{Process, gpi_with_pid, Game}
use cse344_coursework.Potato.Heat.{times, Warm, Inv}
use cse344_coursework.Potato.Index.{
  gpi_with_pid-le, gpi_with_pid-first, gpi_with_pid-append, gpi_with_pid-append_new,
  get_elem?-append_end,
}

new-or-old :
    (procs : List Process) (q : Process) (r : ℕ)
    → gpi_with_pid (procs ++ (q ∷ [])) r ≡ length (procs ++ (q ∷ []))
    → (gpi_with_pid procs r ≡ length procs) × (q.id ≢ r)
new-or-old procs q r e = elim (Bool-cases (ltb (gpi_with_pid procs r) (length procs))) [
  | inl lt ↦
      let l : gpi_with_pid procs r < length procs = ground arith in
      absurd (omega (arith, l, e, gpi_with_pid-append procs q r l, length-append procs (q ∷ [])))
  | inr n ↦
      let h : gpi_with_pid procs r ≡ length procs = ground (arith, gpi_with_pid-le procs r) in
      (
        h,
        λ same.
            ground (
              arith,
              same,
              e,
              h,
              gpi_with_pid-append_new procs q r h,
              length-append procs (q ∷ []),
            ),
      )
]

pub enter-Inv :
    (g : Game) (q : Process) (filled : Bool)
    → gpi_with_pid g.procs q.id ≡ length g.procs
    → times q.id g.ready ≡ 0
    → times q.id g.flight ≡ 0
    → q.cool_down < 4294967296
    → Inv g
    → Inv (record g {
      procs = g.procs ++ (q ∷ []);
      filled = filled;
      ready = q.id ∷ g.ready;
      dealt = g.dealt ++ (q.cool_down ∷ []);
    })
enter-Inv g q filled fresh no_ready no_flight small v =
    let differ : (i : ℕ) (p : Process) → get_elem? g.procs i ≡ some p → q.id ≢ p.id = λ i p ep e.
      omega (
        arith,
        ap (gpi_with_pid g.procs) e,
        fresh,
        gpi_with_pid-first g.procs i p ep,
        lt_of_get_elem? g.procs i ep,
      ) in
    record {
      same_length = omega (
        arith,
        v.same_length,
        length-append g.dealt (q.cool_down ∷ []),
        length-append g.procs (q ∷ []),
      );
      own = λ i p ep there. elim (get_elem?-append_end g.procs q i ep) [
        | inl old ↦
            let ne = differ i p old in
            let at = v.own i p old (ground (arith, there, ne)) in
            gpi_with_pid-append g.procs q p.id (omega (arith, at, lt_of_get_elem? g.procs i old))
            ∙ at
        | inr (il, pq) ↦
            ap (λ (x : Process). gpi_with_pid (g.procs ++ (q ∷ [])) x.id) pq
            ∙ ground (arith, il, gpi_with_pid-append_new g.procs q q.id fresh)
      ];
      warm = λ i p d ep ed. elim (get_elem?-append_end g.procs q i ep) [
        | inl old ↦ elim (get_elem?-append_end g.dealt q.cool_down i ed) [
          | inl old_d ↦
              let w = v.warm i p d old old_d in
              let ne = differ i p old in
              record {
                kept = ground (arith, w.kept, ne);
                low = w.low;
                hot = w.hot;
                small = w.small;
              }
          | inr (il, dq) ↦ absurd (omega (arith, il, lt_of_get_elem? g.procs i old, v.same_length))
        ]
        | inr (il, pq) ↦ elim (get_elem?-append_end g.dealt q.cool_down i ed) [
          | inl old_d ↦ absurd (omega (arith, il, lt_of_get_elem? g.dealt i old_d, v.same_length))
          | inr (il', dq) ↦
              subst (λ x. Warm (q.id ∷ g.ready) g.flight x d) (sym pq)
                (record {
                  kept = ground (arith, no_ready, no_flight, dq);
                  low = omega (arith, dq);
                  hot = λ o. absurd (omega (arith, o, no_flight));
                  small = omega (arith, dq, small);
                })
        ]
      ];
      known = λ calm r e.
          let (h, ne) = new-or-old g.procs q r e in ground (arith, v.known calm r h, ne);
    }
