-- ===== src/Queue/Trace.antt =====
-- Whole runs of the queue of Final/Server/queue/queue.c against a list of descriptors.
use mathlib.Core.Path.{subst}
use cse344_coursework.Base.{
  ◌≡◌, refl, ◌≢◌, ◌∙◌, ap, ℤ, minus_one, Option, none, some, List, [], ◌∷◌, ◌++◌, ◌>>=◌,
}
use cse344_coursework.Queue.Nodes.{Ptr, null, Heap}
use cse344_coursework.Queue.Chain.{Cells}
use cse344_coursework.Queue.Fifo.{IsQueue, enqueue-append, dequeue-head, dequeue-nil}
use cse344_coursework.Queue.{Queue, Ref, live, enqueue, dequeue}

-- `put a fd` is an enqueue for which `malloc` returns `a`.
pub data Op : Type 0 where
  put : (fresh : Ptr) → (fd : ℤ) → Op
  take : Op

-- The operations in order, and what the dequeues return.
pub run : Heap → Ref → List Op → Option (List ℤ × Heap × Ref)
run h r [] = some ([], h, r)
run h r (put a fd ∷ ops) = enqueue h r a fd >>= λ s. run s.0 s.1 ops
run h r (take ∷ ops) = dequeue h r >>= λ s. run s.1 s.2 ops >>= λ t. some (s.0 ∷ t.0, t.1, t.2)

-- The same on a list of descriptors; -1 if it is empty.
unfoldable pub served : List ℤ → List Op → List ℤ
served fds [] = []
served fds (put a fd ∷ ops) = served (fds ++ (fd ∷ [])) ops
served [] (take ∷ ops) = minus_one ∷ served [] ops
served (fd ∷ fds) (take ∷ ops) = fd ∷ served fds ops

-- What holds of a result, if there is one.
abbrev pub After : (Heap → Ref → Type 0) → Option (Heap × Ref) → Type 0
After P none = Unit
After P (some (h, r)) = P h r

abbrev pub without_fd : Option (ℤ × Heap × Ref) → Option (Heap × Ref)
without_fd none = none
without_fd (some (fd, h, r)) = some (h, r)

-- Whenever `malloc` is called, it returns an address that is not null and not in use then. It may
-- return one that was freed.
abbrev pub Fresh : List Op → Heap → Ref → Type 0
Fresh [] h r = Unit
Fresh (put a fd ∷ ops) h r = (a ≢ null) × (h a ≡ none) × After (Fresh ops) (enqueue h r a fd)
Fresh (take ∷ ops) h r = After (Fresh ops) (without_fd (dequeue h r))

abbrev pub fds : Cells → List ℤ
fds [] = []
fds ((a, v) ∷ cs) = v ∷ fds cs

pub fds-append : (cs : Cells) (a : Ptr) (v : ℤ) → fds (cs ++ ((a, v) ∷ [])) ≡ fds cs ++ (v ∷ [])
fds-append [] a v = refl
fds-append ((b, w) ∷ cs) a v = ap (λ l. w ∷ l) (fds-append cs a v)

-- From a well-formed queue every run of enqueues and dequeues goes through in which `malloc` returns an
-- address that is not in use, be it one that was freed: the dequeues return what a list in order of arrival would, -1 when it is empty, and
-- the queue that is left is well-formed.
pub run-served :
    (h : Heap) (q : Queue) (cs : Cells) (ops : List Op)
    → IsQueue h q cs
    → Fresh ops h (live q)
    → (g : Heap) × (q' : Queue) × (cs' : Cells) × (run h (live q) ops
        ≡ some (served (fds cs) ops, g, live q'))
      × IsQueue g q' cs'
unfolding run served
run-served h q cs [] is f = (h, q, cs, refl, is)
run-served h q cs (put a fd ∷ ops) is (ne, un, f) =
    let (g, q1, e, is1, _) = enqueue-append h q cs a fd is ne un in
    let f1 = subst (After (Fresh ops)) e f in
    let (g', q', cs', e', is') = run-served g q1 (cs ++ ((a, fd) ∷ [])) ops is1 f1 in
    (
      g',
      q',
      cs',
      ap (λ x. x >>= λ s. run s.0 s.1 ops) e
          ∙ e'
          ∙ ap (λ l. some (served l ops, g', live q')) (fds-append cs a fd),
      is',
    )
run-served h q [] (take ∷ ops) is f =
    let f1 = subst (λ x. After (Fresh ops) (without_fd x)) (dequeue-nil h q is) f in
    let (g', q', cs', e', is') = run-served h q [] ops is f1 in
    (
      g',
      q',
      cs',
      ap (λ x. x >>= λ s. run s.1 s.2 ops >>= λ t. some (s.0 ∷ t.0, t.1, t.2)) (dequeue-nil h q is)
          ∙ ap (λ x. x >>= λ t. some (minus_one ∷ t.0, t.1, t.2)) e',
      is',
    )
run-served h q ((a, fd) ∷ cs) (take ∷ ops) is f =
    let (g, q1, e, is1, _, _) = dequeue-head h q a fd cs is in
    let f1 = subst (λ x. After (Fresh ops) (without_fd x)) e f in
    let (g', q', cs', e', is') = run-served g q1 cs ops is1 f1 in
    (
      g',
      q',
      cs',
      ap (λ x. x >>= λ s. run s.1 s.2 ops >>= λ t. some (s.0 ∷ t.0, t.1, t.2)) e
          ∙ ap (λ x. x >>= λ t. some (fd ∷ t.0, t.1, t.2)) e',
      is',
    )
