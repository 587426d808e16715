-- ===== src/Pool/Order.antt =====
-- The queue between the server's main thread and its pool (server_loop and thread_pool_handler of
-- Final/Server/main.c) holds the accepted descriptors that no thread has taken, in order.
use mathlib.Core.Path.{subst}
use cse344_coursework.Base.{
  ℕ, suc, ◌≡◌, ◌⊎◌, inl, inr, refl, ◌≢◌, ap, ◌∙◌, sym, ℤ, pos, negsuc, All, Bool, true, false, none,
  some, List, [], ◌∷◌, ◌++◌, length, ◌==◌, arith, append_assoc, append-nil,
}
use cse344_coursework.Queue.Nodes.{Ptr, null, Heap}
use cse344_coursework.Queue.Chain.{Cells}
use cse344_coursework.Queue.Fifo.{IsQueue, enqueue-append, dequeue-head, queue_size-IsQueue}
use cse344_coursework.Queue.Trace.{fds, fds-append}
use cse344_coursework.Queue.{Queue, Ref, live, enqueue, queue_size}
use cse344_coursework.Pool.{
  Main, accepts, sleeps, woken, brings, left, Taken, waits, takes, stops_inside, stops_waiting,
  if_taken, take_test, take_resume,
}

-- The descriptor that the main thread holds.
abbrev pub in_hand : Main → List ℤ
in_hand accepts = []
in_hand (sleeps fd) = fd ∷ []
in_hand (woken fd) = fd ∷ []
in_hand (brings fd) = fd ∷ []
in_hand left = []

abbrev pub IsDescriptor : ℤ → Type 0
IsDescriptor v = (k : ℕ) × (v ≡ pos k)

-- The queue is well-formed, and what was accepted is what was taken, what the queue holds, and
-- `hand`, in this order.
pub record Shape (h : Heap) (queue : Ref) (accepted taken hand : List ℤ) (cs : Cells) : Type 0 where
  pub struct : Queue
  pub at : queue ≡ live struct
  pub is : IsQueue h struct cs
  pub order : accepted ≡ taken ++ (fds cs ++ hand)
  pub descriptors : All IsDescriptor (fds cs ++ hand)

-- How a section under mQueue ends, by what the queue holds.
pub data Seen (interrupt : Bool) (accepted taken hand : List ℤ) : Cells → Taken → Type 0 where
  sees_none : Seen interrupt accepted taken hand [] waits
  sees_signal : {cs : Cells} → interrupt ≡ true → Seen interrupt accepted taken hand cs stops_inside
  sees_head :
      {a : Ptr} {fd : ℤ} {cs : Cells} {h : Heap} {queue : Ref}
      → Shape h queue accepted (taken ++ (fd ∷ [])) hand cs
      → Seen interrupt accepted taken hand ((a, fd) ∷ cs) (takes fd h queue)

queue_size-Shape :
    (h : Heap) (queue : Ref) (accepted taken hand : List ℤ) (cs : Cells)
    → Shape h queue accepted taken hand cs
    → queue_size queue ≡ some (length cs)
queue_size-Shape h queue accepted taken hand cs s =
    ap queue_size s.at ∙ queue_size-IsQueue h s.struct cs s.is

if_taken-descriptor :
    (fd : ℤ) (h : Heap) (queue : Ref) → IsDescriptor fd → if_taken fd h queue ≡ takes fd h queue
unfolding if_taken
if_taken-descriptor (pos n) h queue d = refl
if_taken-descriptor (negsuc n) h queue (k, e) = cc

-- A section is never undefined, and never finds an empty queue behind the wait.
pub take_test-Seen :
    (interrupt : Bool) (h : Heap) (queue : Ref) (accepted taken hand : List ℤ) (cs : Cells)
    → Shape h queue accepted taken hand cs
    → (t : Taken) × (take_test interrupt h queue ≡ some t) × Seen interrupt accepted taken hand cs t
unfolding take_test
take_test-Seen interrupt h queue accepted taken hand [] s =
    (waits, rw (queue_size-Shape h queue accepted taken hand [] s), sees_none)
take_test-Seen true h queue accepted taken hand (c ∷ cs) s =
    let some_left : (suc (length cs) == 0) ≡ false = ground arith in
    (
      stops_inside,
      rw (queue_size-Shape h queue accepted taken hand (c ∷ cs) s, some_left),
      sees_signal refl,
    )
take_test-Seen false h queue accepted taken hand ((a, fd) ∷ cs) s =
    let (d, ds) = s.descriptors in
    let (g, q, e, is', _, _) = dequeue-head h s.struct a fd cs s.is in
    let some_left : (suc (length cs) == 0) ≡ false = ground arith in
    (
      takes fd g (live q),
      rw (
        queue_size-Shape h queue accepted taken hand ((a, fd) ∷ cs) s,
        some_left,
        s.at,
        e,
        if_taken-descriptor fd g (live q) d,
      ),
      sees_head (record {
        struct = q;
        at = refl;
        is = is';
        order = s.order ∙ sym (append_assoc taken (fd ∷ []) (fds cs ++ hand));
        descriptors = ds;
      }),
    )

pub take_resume-Seen :
    (interrupt later : Bool) (h : Heap) (queue : Ref) (accepted taken hand : List ℤ) (cs : Cells)
    → Shape h queue accepted taken hand cs
    → (t : Taken) × (take_resume interrupt later h queue ≡ some t)
      × (Seen later accepted taken hand cs t ⊎ ((interrupt ≡ true) × (t ≡ stops_waiting)))
unfolding take_resume
take_resume-Seen true later h queue accepted taken hand cs s =
    (stops_waiting, refl, inr (refl, refl))
take_resume-Seen false later h queue accepted taken hand cs s =
    let (t, e, v) = take_test-Seen later h queue accepted taken hand cs s in (t, e, inl v)

-- `enqueue` moves the descriptor from the main thread to the queue.
pub enqueue-Shape :
    (h : Heap) (queue : Ref) (accepted taken : List ℤ) (fd : ℤ) (cs : Cells) (fresh : Ptr)
    → Shape h queue accepted taken (fd ∷ []) cs
    → fresh ≢ null
    → h fresh ≡ none
    → (g : Heap) × (queue' : Ref) × (enqueue h queue fresh fd ≡ some (g, queue'))
      × Shape g queue' accepted taken [] (cs ++ ((fresh, fd) ∷ []))
enqueue-Shape h queue accepted taken fd cs fresh s ne un =
    let (g, q, e, is', _) = enqueue-append h s.struct cs fresh fd s.is ne un in
    let same : fds cs ++ (fd ∷ []) ≡ fds (cs ++ ((fresh, fd) ∷ [])) ++ [] =
      sym (append-nil (fds (cs ++ ((fresh, fd) ∷ []))) ∙ fds-append cs fresh fd) in
    (
      g,
      live q,
      ap (λ r. enqueue h r fresh fd) s.at ∙ e,
      record {
        struct = q;
        at = refl;
        is = is';
        order = s.order ∙ ap (λ l. taken ++ l) same;
        descriptors = subst (All IsDescriptor) same s.descriptors;
      },
    )

All-append :
    (xs : List ℤ) (v : ℤ) → All IsDescriptor xs → IsDescriptor v → All IsDescriptor (xs ++ (v ∷ []))
All-append [] v h d = (d, tt)
All-append (x ∷ xs) v (h, hs) d = (h, All-append xs v hs d)

-- The main thread gets a descriptor.
pub accept-Shape :
    (h : Heap) (queue : Ref) (accepted taken : List ℤ) (fd : ℕ) (cs : Cells)
    → Shape h queue accepted taken [] cs
    → Shape h queue (accepted ++ (pos fd ∷ [])) taken (pos fd ∷ []) cs
accept-Shape h queue accepted taken fd cs s = record {
  struct = s.struct;
  at = s.at;
  is = s.is;
  order =
      ap (λ l. l ++ (pos fd ∷ [])) s.order
      ∙ append_assoc taken (fds cs ++ []) (pos fd ∷ [])
      ∙ ap (λ l. taken ++ (l ++ (pos fd ∷ []))) (append-nil (fds cs));
  descriptors =
      All-append (fds cs) (pos fd) (subst (All IsDescriptor) (append-nil (fds cs)) s.descriptors)
        (fd, refl);
}
