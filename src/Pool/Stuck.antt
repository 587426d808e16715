-- ===== src/Pool/Stuck.antt =====
-- A thread of Final/Server/main.c that finds SIGINT behind its wait, with a client in the queue, ends
-- with mQueue locked.
use cse344_coursework.Base.{
  ℕ, suc, ◌+◌, ◌-◌, ◌≤◌, ◌≡◌, ◌≢◌, refl, ◌∙◌, sym, ℤ, pos, true, false, some, none, [], ◌∷◌, ◌++◌,
  arith,
}
use cse344_coursework.Queue.Nodes.{Ptr, null, Heap}
use cse344_coursework.Queue.{Queue, live, empty, enqueue, queue_size}
use cse344_coursework.Queue.Fifo.{IsQueue, enqueue-append, queue_size-IsQueue}
use cse344_coursework.Pool.{
  accepts, Pool, waits, stops_inside, take_test, rouse_all, after_take, slot_test, bring, Step,
  accept, accept_fails, no_accept, resume_main, enqueues, enqueue_fails, take, resume_take, quit,
  lose, hand_back, close, signal, spurious_main, spurious_take, start, Reach, here, next,
}

-- What can follow a state.
pub data Later (s : Pool) : Pool → Type 0 where
  now : Later s s
  later : {t u : Pool} → Later s t → Step t u → Later s u

-- The mutex is locked for good, and a thread has not come out of the wait.
abbrev Locked : Pool → Type 0
Locked s = (s.held ≡ true) × (1 ≤ s.crew.asleep + s.crew.roused)

Step-Locked : {s t : Pool} → Step s t → Locked s → Locked t
unfolding rouse_all
Step-Locked (accept fd m) l = l
Step-Locked (accept_fails m i) l = l
Step-Locked (no_accept m i) (l, w) = (l, omega (arith, w))
Step-Locked (resume_main fd m) l = l
Step-Locked (enqueues fd fresh m f ne un e) (l, w) = let no_way : true ≡ false = sym l ∙ f in cc
Step-Locked (enqueue_fails fd m f e) (l, w) = let no_way : true ≡ false = sym l ∙ f in cc
Step-Locked (take t i f e) (l, w) = let no_way : true ≡ false = sym l ∙ f in cc
Step-Locked (resume_take t latest i f h e) (l, w) = let no_way : true ≡ false = sym l ∙ f in cc
Step-Locked (quit i f) l = l
Step-Locked (lose i) l = l
Step-Locked (hand_back i) l = l
Step-Locked (close i) l = l
Step-Locked signal l = l
Step-Locked spurious_main l = l
Step-Locked (spurious_take i) (l, w) = (l, omega (arith, w, i))

Later-Locked : {s t : Pool} → Later s t → Locked s → Locked t
Later-Locked now l = l
Later-Locked (later r st) l = Step-Locked st (Later-Locked r l)

take_test-inside :
    (h : Heap) (q : Queue) (a : Ptr) (fd : ℤ)
    → IsQueue h q ((a, fd) ∷ [])
    → take_test true h (live q) ≡ some stops_inside
unfolding take_test
take_test-inside h q a fd is = rw (queue_size-IsQueue h q ((a, fd) ∷ []) is)

-- One thread sleeps, and a client is accepted.
abbrev one_asleep : ℕ → Heap → Pool
one_asleep n h =
    after_take waits (record ((start n h).crew) { idle = (start n h).crew.idle - 1 }) (start n h)

one_asleep-Reach : (n : ℕ) (h : Heap) → 1 ≤ n → Reach n h (one_asleep n h)
unfolding take_test queue_size start
one_asleep-Reach n h k = next here (take waits k refl refl)

abbrev client_there : ℕ → Heap → Pool
client_there n h = record (one_asleep n h) {
  main = (slot_test (one_asleep n h).available (pos 7)).0;
  available = (slot_test (one_asleep n h).available (pos 7)).1;
  accepted = (one_asleep n h).accepted ++ (pos 7 ∷ []);
}

client_there-Reach : (n : ℕ) (h : Heap) → 1 ≤ n → Reach n h (client_there n h)
unfolding after_take start
client_there-Reach n h k = next (one_asleep-Reach n h k) (accept 7 refl)

empty-IsQueue : (h : Heap) → IsQueue h empty []
empty-IsQueue h = record { front_first = refl; rear_last = refl; size_length = refl; linked = tt }

-- The client is in the queue.
abbrev client_queued : ℕ → Heap → Heap → Queue → Pool
client_queued n h g q = record (client_there n h) {
  heap = g;
  queue = live q;
  main = accepts;
  crew = rouse_all (client_there n h).crew;
}

-- SIGINT has come.
abbrev interrupted : ℕ → Heap → Heap → Queue → Pool
interrupted n h g q = record (client_queued n h g q) { interrupt = true }

interrupted-Reach :
    (n : ℕ) (h g : Heap) (a : Ptr) (q : Queue)
    → a ≢ null
    → h a ≡ none
    → enqueue h (live empty) a (pos 7) ≡ some (g, live q)
    → Reach (suc (suc n)) h (interrupted (suc (suc n)) h g q)
unfolding after_take start slot_test bring
interrupted-Reach n h g a q ne un e =
    next
      (next {t = client_queued (suc (suc n)) h g q}
        (client_there-Reach (suc (suc n)) h (omega arith))
        (enqueues (pos 7) a refl refl ne un (rw e refl)))
      signal

-- The server can hang when it is to shut down: with two threads or more, and memory for a node, there is
-- a run, in which neither accept nor malloc fails, to a state from which, whatever the server does then,
-- some thread is in its wait for a client.
pub shutdown_hangs :
    (n : ℕ) (h : Heap) (a : Ptr)
    → a ≢ null
    → h a ≡ none
    → (s : Pool) × Reach (suc (suc n)) h s
      × (s.failed ≡ false)
      × ((t : Pool) → Later s t → 1 ≤ t.crew.asleep + t.crew.roused)
unfolding after_take start slot_test rouse_all
shutdown_hangs n h a ne un =
    let (g, q, e, is, _) = enqueue-append h empty [] a (pos 7) (empty-IsQueue h) ne un in
    let s = interrupted (suc (suc n)) h g q in
    (
      after_take stops_inside (record (s.crew) { idle = s.crew.idle - 1 }) s,
      next (interrupted-Reach n h g a q ne un e)
          (take stops_inside (omega arith) refl (take_test-inside g q a (pos 7) is)),
      refl,
      λ t l. (Later-Locked l (refl, omega arith)).1,
    )
