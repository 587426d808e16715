-- ===== src/Queue.antt =====
-- The queue of client descriptors: Final/Server/queue/queue.c. Nodes live on a heap, the queue's
-- own struct is the value behind a `Ref`; an operation returns the new heap and what the caller's
-- pointer refers to afterwards. `none` is undefined behaviour.
use cse344_coursework.Base.{
  ℕ, zero, suc, ◌+◌, ◌-◌, ◌≡◌, ℤ, minus_one, Option, none, some, ◌==◌, if◌then◌else◌, ◌>>=◌,
}
use cse344_coursework.Queue.Nodes.{Ptr, null, Heap, node, read, write, set_next}
pub mod Nodes
pub mod Chain
pub mod Destroy
pub mod Fifo
pub mod Trace

pub record Queue : Type 0 where
  pub size : ℕ
  pub front : Ptr
  pub rear : Ptr

-- What a `Queue *` refers to: nothing, a queue, or a queue that was freed.
pub data Ref : Type 0 where
  null_ref : Ref
  live : Queue → Ref
  dangling : Ref

abbrev pub empty : Queue
empty = record { size = 0; front = null; rear = null }

-- `malloc` fails if the address it returns, here `fresh`, is null.
pub init_queue : (fresh : Ptr) → Ref
init_queue fresh = if fresh == null then null_ref else live empty

-- `new_node`: the heap with the node, or `none` if `malloc` fails.
unfoldable pub new_node : Heap → (fresh : Ptr) → ℤ → Option Heap
new_node h fresh fd = if fresh == null then none else some (write h fresh (some (node fd null)))

-- `while (queue->front)`, on fuel. Out of fuel is `none` too.
unfoldable pub destroy_loop : ℕ → Heap → Ptr → Option Heap
destroy_loop zero h front = none
destroy_loop (suc fuel) h front =
    if front == null
    then some h
    else do n ← read h front; destroy_loop fuel (write h front none) n.next

-- The struct is freed on every path but the first, so the caller's pointer dangles.
unfoldable pub destroy_queue : Heap → Ref → Option (Heap × Ref)
unfolding destroy_loop read write
destroy_queue h null_ref = some (h, null_ref)
destroy_queue h dangling = none
destroy_queue h (live q) =
    if q.front == null
    then some (h, dangling)
    else do h' ← destroy_loop (q.size + 1) h q.front; some (h', dangling)

-- With the new node on the heap: the first one is front and rear, another goes behind the rear.
unfoldable pub link : Heap → Queue → (temp : Ptr) → Option (Heap × Ref)
link h q temp =
    if q.rear == null
    then some (h, live (record { size = q.size + 1; front = temp; rear = temp }))
    else do
      h' ← set_next h q.rear temp
      some (h', live (record { size = q.size + 1; front = q.front; rear = temp }))

-- When `malloc` fails the queue is destroyed; `queue = NULL` sets the parameter only.
unfoldable pub enqueue : Heap → Ref → (fresh : Ptr) → ℤ → Option (Heap × Ref)
unfolding link new_node destroy_queue set_next
enqueue h null_ref fresh fd = some (h, null_ref)
enqueue h dangling fresh fd = none
enqueue h (live q) fresh fd = elim (new_node h fresh fd) [
  | none ↦ destroy_queue h (live q)
  | some h' ↦ link h' q fresh
]

-- The first node leaves the queue and is freed; -1 if there is none.
unfoldable pub dequeue : Heap → Ref → Option (ℤ × Heap × Ref)
unfolding read write
dequeue h null_ref = some (minus_one, h, null_ref)
dequeue h dangling = none
dequeue h (live q) = if q.front == null then some (minus_one, h, live q) else do
  n ← read h q.front
  some (
    n.fd,
    write h q.front none,
    live (record {
      size = q.size - 1;
      front = n.next;
      rear = if n.next == null then null else q.rear;
    }),
  )

unfoldable pub queue_size : Ref → Option ℕ
queue_size null_ref = some 0
queue_size dangling = none
queue_size (live q) = some q.size
