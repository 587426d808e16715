-- ===== src/Queue/Destroy.antt =====
-- Freeing a queue, and what a failed allocation in `enqueue` leaves behind.
use cse344_coursework.Base.{
  ℕ, zero, suc, ◌+◌, ◌<◌, ◌≡◌, ◌≢◌, ◌∙◌, refl, true, ℤ, none, some, [], ◌∷◌, Bool-cases, inl, inr,
  ◌>>=◌, arith, length,
}
use cse344_coursework.Queue.Nodes.{node, Ptr, null, Heap, read, write}
use cse344_coursework.Queue.Chain.{Cells, has, first, Linked, Linked-agree}
use cse344_coursework.Queue.Fifo.{IsQueue, SameOutside}
use cse344_coursework.Queue.{Queue, live, dangling, enqueue, dequeue, destroy_queue, destroy_loop}

-- `g` holds none of the nodes of `cs`, and is `h` elsewhere.
abbrev pub Freed : Cells → Heap → Heap → Type 0
Freed cs h g = ((a : Ptr) → has a cs ≡ true → g a ≡ none) × SameOutside cs h g

destroy_loop_step :
    (fuel : ℕ) (h : Heap) (a next : Ptr) (v : ℤ)
    → a ≢ null
    → h a ≡ some (node v next)
    → destroy_loop (suc fuel) h a ≡ destroy_loop fuel (write h a none) next
unfolding destroy_loop read
destroy_loop_step fuel h a next v ne at = ground arith

-- Freeing the head and then the rest frees all.
module _ (h g : Heap) (a : Ptr) (v : ℤ) (cs : Cells)
    (gone : (b : Ptr) → has b cs ≡ true → g b ≡ none)
    (same : SameOutside cs (write h a none) g) where
  freed_head : (b : Ptr) → has b ((a, v) ∷ cs) ≡ true → g b ≡ none
  unfolding write
  freed_head b i = elim (Bool-cases (has b cs)) [
    | inl inside ↦ gone b inside
    | inr out ↦ ground (arith, same b out)
  ]

  same_head : SameOutside ((a, v) ∷ cs) h g
  unfolding write
  same_head b o = ground (arith, same b)

destroy_loop-Freed :
    (fuel : ℕ) (h : Heap) (cs : Cells)
    → length cs < fuel
    → Linked h cs
    → (g : Heap) × (destroy_loop fuel h (first cs) ≡ some g) × Freed cs h g
unfolding destroy_loop read write
destroy_loop-Freed zero h cs f l = absurd (omega arith)
destroy_loop-Freed (suc fuel) h [] f l = (h, refl, ((λ a i. cc), (λ a o. refl)))
destroy_loop-Freed (suc fuel) h ((a, v) ∷ cs) f (ne, at, out, l) =
    let l' = Linked-agree h (write h a none) cs (λ b i. ground arith) l in
    let (g, e, (gone, same)) = destroy_loop-Freed fuel (write h a none) cs (omega arith) l' in
    (
      g,
      destroy_loop_step fuel h a (first cs) v ne at ∙ e,
      (freed_head h g a v cs gone same, same_head h g a v cs gone same),
    )

-- `destroy_queue` frees every node of the queue once, touches no other, and ends: its loop needs one
-- round for each node.
pub destroy_queue-Freed :
    (h : Heap) (q : Queue) (cs : Cells)
    → IsQueue h q cs
    → (g : Heap) × (destroy_queue h (live q) ≡ some (g, dangling)) × Freed cs h g
unfolding destroy_queue
destroy_queue-Freed h q [] is = (h, ground (arith, is.front_first), ((λ a i. cc), (λ a o. refl)))
destroy_queue-Freed h q ((a, v) ∷ cs) is =
    let (g, e, freed) =
      destroy_loop-Freed (q.size + 1) h ((a, v) ∷ cs) (omega (arith, is.size_length)) is.linked in
    (g, rw is.front_first (ground (arith, e, is.linked.0)), freed)

-- If `malloc` fails in `enqueue`, the queue is destroyed while the caller's pointer still refers to
-- it: the next `dequeue` uses freed memory.
pub enqueue-dequeue_dangling :
    (h : Heap) (q : Queue) (cs : Cells) (fd : ℤ)
    → IsQueue h q cs
    → (enqueue h (live q) null fd >>= λ r. dequeue r.0 r.1) ≡ none
unfolding enqueue dequeue
enqueue-dequeue_dangling h q cs fd is = let (g, e, freed) = destroy_queue-Freed h q cs is in rw e
