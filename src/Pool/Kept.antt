-- ===== src/Pool/Kept.antt =====
-- Every step of the server's pool (server_loop and thread_pool_handler of Final/Server/main.c) keeps its
-- invariant, as long as accept and malloc do not fail.
use mathlib.Core.Path.{subst}
use cse344_coursework.Base.{
  ℕ, ◌≡◌, ◌⊎◌, inl, inr, refl, ap, ◌∙◌, sym, ℤ, pos, Bool, true, false, List, Option, none, some,
  bind-eq-some, [], ◌∷◌, ◌++◌, arith,
}
use cse344_coursework.Queue.Nodes.{Ptr, Heap}
use cse344_coursework.Queue.Chain.{Cells}
use cse344_coursework.Queue.{empty, enqueue}
use cse344_coursework.Pool.{
  Main, accepts, Crew, Pool, Taken, waits, takes, stops_inside, stops_empty, stops_waiting,
  rouse_all, after_take, bring, Step, accept, accept_fails, no_accept, resume_main, enqueues,
  enqueue_fails, take, resume_take, quit, lose, hand_back, close, signal, spurious_main,
  spurious_take, start, Reach, here, next,
}
use cse344_coursework.Pool.Order.{
  Shape, Seen, in_hand, take_test-Seen, take_resume-Seen, accept-Shape,
}
use cse344_coursework.Pool.Capacity.{
  Counts, Inv, pending, wake_main-awake, wake_main-pending, in_hand-wake_main, slot_test-Counts,
  hand_back-Counts, slot_resume-Counts, in_hand-slot_test, in_hand-slot_resume, after_take-Inv,
  after_resume-Inv, bring-Inv,
}

Counts-later :
    {n m : ℕ} {a : ℤ} {interrupt held : Bool} {main : Main} {c : Crew} (later : Bool)
    → (interrupt ≡ true → later ≡ true)
    → Counts n m a interrupt held main c
    → Counts n m a later held main c
Counts-later {interrupt = true} later h v = let on : later ≡ true = h refl in ground (arith, on)
Counts-later {interrupt = false} later h v = ground arith

after_take-failed : (t : Taken) (c : Crew) (s : Pool) → (after_take t c s).failed ≡ s.failed
unfolding after_take
after_take-failed waits c s = refl
after_take-failed (takes fd h queue) c s = refl
after_take-failed stops_inside c s = refl
after_take-failed (stops_empty h queue) c s = refl
after_take-failed stops_waiting c s = refl

abbrev failed_of : Option Pool → Bool
failed_of none = false
failed_of (some p) = p.failed

bring-failed :
    (fresh : Ptr) (fd : ℤ) (s : Pool) {t : Pool} → bring fresh fd s ≡ some t → s.failed ≡ t.failed
unfolding bring
bring-failed fresh fd s {t} e =
    let (_, _, done) =
      bind-eq-some (enqueue s.heap s.queue fresh fd)
        (λ r. some (record s { heap = r.0; queue = r.1; main = accepts; crew = rouse_all s.crew }))
        e in
    ap failed_of done

-- Nothing has failed before a state in which nothing has failed.
Step-failed : {s t : Pool} → Step s t → t.failed ≡ false → s.failed ≡ false
Step-failed (accept fd m) out = out
Step-failed (accept_fails m i) out = cc
Step-failed (no_accept m i) out = out
Step-failed (resume_main fd m) out = out
Step-failed {s} (enqueues fd fresh m f ne un e) out = bring-failed fresh fd s e ∙ out
Step-failed (enqueue_fails fd m f e) out = cc
Step-failed {s} (take t i f e) out = sym (after_take-failed t _ s) ∙ out
Step-failed {s} (resume_take t later i f l e) out =
    sym (after_take-failed t _ (record s { interrupt = later })) ∙ out
Step-failed (quit i f) out = out
Step-failed (lose i) out = out
Step-failed (hand_back i) out = out
Step-failed (close i) out = out
Step-failed signal out = out
Step-failed spurious_main out = out
Step-failed (spurious_take i) out = out

set_later :
    (s : Pool) (later : Bool) (t : Taken) (hand : List ℤ) (cs : Cells)
    → (s.interrupt ≡ true → later ≡ true)
    → (Seen later s.accepted s.taken hand cs t ⊎ ((s.interrupt ≡ true) × (t ≡ stops_waiting)))
    → (Seen later s.accepted s.taken hand cs t ⊎ ((later ≡ true) × (t ≡ stops_waiting)))
set_later s later t hand cs l (inl seen) = inl seen
set_later s later t hand cs l (inr (i, e)) = inr (l i, e)

Step-Inv : {n : ℕ} {s t : Pool} → Step s t → t.failed ≡ false → Inv n s → Inv n t
unfolding rouse_all
Step-Inv {n} {s} (accept fd m) out v =
    let h =
      accept-Shape s.heap s.queue s.accepted s.taken fd v.cells
        (subst (λ x. Shape s.heap s.queue s.accepted s.taken (in_hand x) v.cells) m v.shape) in
    record {
      cells = v.cells;
      shape =
          subst (λ x. Shape s.heap s.queue (s.accepted ++ (pos fd ∷ [])) s.taken x v.cells)
            (sym (in_hand-slot_test s.available (pos fd))) h;
      counts = slot_test-Counts s.available s.main (pos fd) (ap pending m) v.counts;
    }
Step-Inv (accept_fails m i) out v = cc
Step-Inv {n} {s} (no_accept m i) out v =
    let p : pending s.main ≡ 0 = ap pending m in
    record {
      cells = v.cells;
      shape = subst (λ x. Shape s.heap s.queue s.accepted s.taken x v.cells) (ap in_hand m) v.shape;
      counts = ground arith;
    }
Step-Inv {n} {s} (resume_main fd m) out v = record {
  cells = v.cells;
  shape =
      subst (λ x. Shape s.heap s.queue s.accepted s.taken x v.cells)
        (ap in_hand m ∙ sym (in_hand-slot_resume s.interrupt s.available fd)) v.shape;
  counts = slot_resume-Counts s.interrupt s.available s.main fd (ap pending m) v.counts;
}
Step-Inv {n} {s} (enqueues {t = t} fd fresh m f ne un e) out v =
    let (t', e', v') = bring-Inv s fd fresh m ne un v in
    let same : t' ≡ t = cc in subst (Inv n) same v'
Step-Inv (enqueue_fails fd m f e) out v = cc
Step-Inv {n} {s} (take t i f e) out v =
    let (t', e', seen) =
      take_test-Seen s.interrupt s.heap s.queue s.accepted s.taken (in_hand s.main) v.cells
        v.shape in
    let same : t' ≡ t = cc in
    after_take-Inv s _ v.cells t (ground arith) v.shape v.counts
      (subst (Seen s.interrupt s.accepted s.taken (in_hand s.main) v.cells) same seen)
Step-Inv {n} {s} (resume_take t later i f l e) out v =
    let (t', e', seen) =
      take_resume-Seen s.interrupt later s.heap s.queue s.accepted s.taken (in_hand s.main) v.cells
        v.shape in
    let same : t' ≡ t = cc in
    after_resume-Inv (record s { interrupt = later }) _ v.cells t (ground arith) v.shape
      (Counts-later later l v.counts)
      (set_later s later t (in_hand s.main) v.cells l (
        subst
          (λ x.
            Seen later s.accepted s.taken (in_hand s.main) v.cells x
            ⊎ ((s.interrupt ≡ true) × (x ≡ stops_waiting)))
          same seen))
Step-Inv (quit i f) out v = record { cells = v.cells; shape = v.shape; counts = ground arith }
Step-Inv (lose i) out v = record { cells = v.cells; shape = v.shape; counts = ground arith }
Step-Inv {n} {s} (hand_back i) out v = record {
  cells = v.cells;
  shape =
      subst (λ x. Shape s.heap s.queue s.accepted s.taken x v.cells)
        (sym (in_hand-wake_main s.main)) v.shape;
  counts = hand_back-Counts s.available s.main i v.counts;
}
Step-Inv (close i) out v = record { cells = v.cells; shape = v.shape; counts = ground arith }
Step-Inv signal out v = record { cells = v.cells; shape = v.shape; counts = ground arith }
Step-Inv {n} {s} spurious_main out v = record {
  cells = v.cells;
  shape =
      subst (λ x. Shape s.heap s.queue s.accepted s.taken x v.cells)
        (sym (in_hand-wake_main s.main)) v.shape;
  counts = ground (arith, wake_main-awake s.main, wake_main-pending s.main);
}
Step-Inv (spurious_take i) out v = record {
  cells = v.cells;
  shape = v.shape;
  counts = ground arith;
}

pub Reach-Inv : {n : ℕ} {h : Heap} {s : Pool} → Reach n h s → s.failed ≡ false → Inv n s
unfolding start
Reach-Inv here out = record {
  cells = [];
  shape = record {
    struct = empty;
    at = refl;
    is = record { front_first = refl; rear_last = refl; size_length = refl; linked = tt };
    order = refl;
    descriptors = tt;
  };
  counts = ground arith;
}
Reach-Inv (next r st) out = Step-Inv st out (Reach-Inv r (Step-failed st out))
