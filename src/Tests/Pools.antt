-- ===== src/Tests/Pools.antt =====
-- The server's threads in concrete states.
use cse344_coursework.Base.{
  false, ℕ, ◌+◌, ◌≤◌, ◌≡◌, ◌≢◌, refl, pos, none, some, [], ◌∷◌, ◌++◌, arith,
}
use cse344_coursework.Queue.Nodes.{Heap, write, node, null}
use cse344_coursework.Queue.Chain.{Cells}
use cse344_coursework.Queue.Trace.{fds}
use cse344_coursework.Queue.Fifo.{IsQueue}
use cse344_coursework.Queue.{Queue, Ref, live, queue_size, enqueue, link, new_node}
use cse344_coursework.Pool.{
  accepts, Pool, Taken, waits, stops_empty, Reach, here, next, start, take_test, slot_test, bring,
  rouse_all, after_take, accept, enqueues, take,
}
use cse344_coursework.Pool.Order.{in_hand}
use cse344_coursework.Pool.Stuck.{Later, shutdown_hangs}
use cse344_coursework.Pool.Safety.{Reach-in_order, Reach-take, Reach-capacity, Reach-asleep}

abbrev no_nodes : Heap
no_nodes a = none

-- One of two threads finds the queue empty and sleeps.
abbrev one_sleeps : Pool
one_sleeps = after_take waits (record ((start 2 no_nodes).crew) { idle = 1 }) (start 2 no_nodes)

one_sleeps-Reach : Reach 2 no_nodes one_sleeps
unfolding take_test queue_size start
one_sleeps-Reach = next here (take waits (omega arith) refl refl)

Reach-asleep_example : queue_size one_sleeps.queue ≡ some 0
unfolding after_take start
Reach-asleep_example = Reach-asleep 2 no_nodes one_sleeps one_sleeps-Reach refl (omega arith)

-- Then a client arrives.
abbrev arrived : Pool
arrived = record one_sleeps {
  main = (slot_test one_sleeps.available (pos 5)).0;
  available = (slot_test one_sleeps.available (pos 5)).1;
  accepted = one_sleeps.accepted ++ (pos 5 ∷ []);
}

arrived-Reach : Reach 2 no_nodes arrived
unfolding after_take start
arrived-Reach = next one_sleeps-Reach (accept 5 refl)

Reach-in_order_example :
    (q : Queue) × (cs : Cells) × (arrived.queue ≡ live q)
    × IsQueue arrived.heap q cs
    × (arrived.accepted ≡ arrived.taken ++ (fds cs ++ in_hand arrived.main))
unfolding after_take start
Reach-in_order_example = Reach-in_order 2 no_nodes arrived arrived-Reach refl

Reach-take_example :
    (t : Taken) × (take_test arrived.interrupt arrived.heap arrived.queue ≡ some t)
    × ((g : Heap) (q : Ref) → t ≢ stops_empty g q)
unfolding after_take start
Reach-take_example = Reach-take 2 no_nodes arrived arrived-Reach refl

Reach-capacity_example :
    (m : ℕ) × (queue_size arrived.queue ≡ some m)
    × (m ≤ arrived.crew.idle + arrived.crew.roused + arrived.crew.closing)
unfolding after_take start
Reach-capacity_example = Reach-capacity 2 no_nodes arrived arrived-Reach refl refl

abbrev queued : Pool
queued = record arrived {
  heap = write no_nodes 7 (some (node (pos 5) null));
  queue = live (record { size = 1; front = 7; rear = 7 });
  main = accepts;
  crew = rouse_all arrived.crew;
}

queued-Reach : Reach 2 no_nodes queued
unfolding bring enqueue link new_node after_take start slot_test
queued-Reach = next arrived-Reach (enqueues (pos 5) 7 refl refl (λ e. omega arith) refl refl)

-- One thread only: it sleeps, gets a client, and a second client comes.
abbrev busy : Pool
busy = record (start 1 no_nodes) {
  main = (slot_test (pos 1) (pos 5)).0;
  available = (slot_test (pos 1) (pos 5)).1;
  accepted = pos 5 ∷ [];
}

busy-Reach : Reach 1 no_nodes busy
unfolding start
busy-Reach = next here (accept 5 refl)

abbrev handed : Pool
handed = record busy {
  heap = write no_nodes 7 (some (node (pos 5) null));
  queue = live (record { size = 1; front = 7; rear = 7 });
  main = accepts;
  crew = rouse_all busy.crew;
}

handed-Reach : Reach 1 no_nodes handed
unfolding bring enqueue link new_node start slot_test
handed-Reach = next busy-Reach (enqueues (pos 5) 7 refl refl (λ e. omega arith) refl refl)

abbrev full : Pool
full = record handed {
  main = (slot_test handed.available (pos 6)).0;
  available = (slot_test handed.available (pos 6)).1;
  accepted = handed.accepted ++ (pos 6 ∷ []);
}

full-Reach : Reach 1 no_nodes full
full-Reach = next handed-Reach (accept 6 refl)

shutdown_hangs_example :
    (s : Pool) × Reach 2 no_nodes s
    × (s.failed ≡ false)
    × ((t : Pool) → Later s t → 1 ≤ t.crew.asleep + t.crew.roused)
shutdown_hangs_example = shutdown_hangs 0 no_nodes 7 (λ e. omega (arith, e)) refl
