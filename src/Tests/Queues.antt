-- ===== src/Tests/Queues.antt =====
-- The queue of descriptors and the growing array at concrete data.
use cse344_coursework.Base.{
  minus_one, ℕ, ◌≡◌, refl, true, pos, none, some, [], ◌∷◌, ◌>>=◌, replicate, arith,
}
use cse344_coursework.Queue.Nodes.{null, Heap, node, write, read, set_next}
use cse344_coursework.Queue.{Queue, live, dangling, enqueue, dequeue, destroy_queue, new_node, link}
use cse344_coursework.Queue.Chain.{Cells}
use cse344_coursework.Queue.Fifo.{IsQueue}
use cse344_coursework.Queue.Trace.{put, take, run, served, run-served}
use cse344_coursework.Queue.Destroy.{Freed, destroy_queue-Freed, enqueue-dequeue_dangling}
use cse344_coursework.ArrayList.{ArrayList, add, remove, status}
use cse344_coursework.ArrayList.Contents.{IsList, add-IsList}
use cse344_coursework.ArrayList.Remove.{remove-IsList}

-- A queue with the descriptor 5, at address 1.
abbrev heap : Heap
heap = write (λ a. none) 1 (some (node (pos 5) null))

abbrev queue : Queue
queue = record { size = 1; front = 1; rear = 1 }

abbrev cells : Cells
cells = (1, pos 5) ∷ []

queue-IsQueue : IsQueue heap queue cells
unfolding write
queue-IsQueue = record {
  front_first = refl;
  rear_last = refl;
  size_length = refl;
  linked = ((λ e. ground arith), refl, refl, tt);
}

-- The first node is freed, its address is used again, and three more descriptors are asked for.
run-served_example :
    (g : Heap) × (q : Queue) × (left : Cells) × (run heap
        (live queue)
        (take ∷ put 1 (pos 6) ∷ put 2 (pos 7) ∷ take ∷ take ∷ take ∷ [])
      ≡ some (pos 5 ∷ pos 6 ∷ pos 7 ∷ minus_one ∷ [], g, live q))
    × IsQueue g q left
unfolding served enqueue dequeue read write link new_node set_next
run-served_example =
    run-served heap queue cells (take ∷ put 1 (pos 6) ∷ put 2 (pos 7) ∷ take ∷ take ∷ take ∷ [])
      queue-IsQueue ((λ e. omega (arith, e)), refl, ((λ e. omega (arith, e)), refl, tt))

destroy_queue-Freed_example :
    (g : Heap) × (destroy_queue heap (live queue) ≡ some (g, dangling)) × Freed cells heap g
destroy_queue-Freed_example = destroy_queue-Freed heap queue cells queue-IsQueue

enqueue-dequeue_dangling_example :
    (enqueue heap (live queue) null (pos 6) >>= λ r. dequeue r.0 r.1) ≡ none
enqueue-dequeue_dangling_example = enqueue-dequeue_dangling heap queue cells (pos 6) queue-IsQueue

abbrev two : ArrayList ℕ
two = record { arr = some 7 ∷ some 8 ∷ replicate 8 none; size = 2; capacity = 10 }

two-IsList : IsList two (7 ∷ 8 ∷ [])
two-IsList = record {
  tail = replicate 8 none;
  slots = refl;
  size_length = refl;
  capacity_length = refl;
  capacity_pos = omega arith;
}

add-IsList_example :
    (l : ArrayList ℕ) × (add true true (λ n. true) (pos 1) (some 9) two
      ≡ some (status true (pos 0), l))
    × IsList l (7 ∷ 9 ∷ 8 ∷ [])
add-IsList_example = add-IsList true (λ n. true) two (7 ∷ []) (8 ∷ []) 9 two-IsList (λ n. refl)

remove-IsList_example :
    (l : ArrayList ℕ) × (remove true true (pos 0) two ≡ some (status true (pos 0), l))
    × IsList l (8 ∷ [])
remove-IsList_example = remove-IsList true two [] (8 ∷ []) 7 two-IsList
