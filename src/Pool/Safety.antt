-- ===== src/Pool/Safety.antt =====
-- What holds in every reachable state of the server's threads (server_loop and thread_pool_handler
-- of Final/Server/main.c).
use cse344_coursework.Base.{
  ℕ, ◌+◌, ◌≤◌, ◌<◌, ◌≡◌, ◌≢◌, refl, ap, ◌∙◌, ℤ, Bool, true, false, some, List, ◌++◌, length, arith,
}
use cse344_coursework.Queue.Nodes.{Heap}
use cse344_coursework.Queue.Chain.{Cells}
use cse344_coursework.Queue.Trace.{fds}
use cse344_coursework.Queue.Fifo.{IsQueue, queue_size-IsQueue}
use cse344_coursework.Queue.{Queue, Ref, live, queue_size}
use cse344_coursework.Pool.{
  Main, accepts, sleeps, woken, brings, left, Pool, Taken, stops_empty, take_test, Reach,
}
use cse344_coursework.Pool.Order.{in_hand, Seen, sees_none, sees_signal, sees_head, take_test-Seen}
use cse344_coursework.Pool.Capacity.{is_asleep, pending}
use cse344_coursework.Pool.Kept.{Reach-Inv}

-- As long as accept has not failed without SIGINT, nor malloc for a node, in every reachable state the
-- queue is well-formed, and the descriptors that were accepted are
-- those that threads have taken, those in the queue, and the one that the main thread holds, in this
-- order: clients are served in the order of their arrival, and none is lost or taken twice.
pub Reach-in_order :
    (n : ℕ) (h : Heap) (s : Pool)
    → Reach n h s
    → s.failed ≡ false
    → (q : Queue) × (cs : Cells) × (s.queue ≡ live q)
      × IsQueue s.heap q cs
      × (s.accepted ≡ s.taken ++ (fds cs ++ in_hand s.main))
Reach-in_order n h s r out =
    let v = Reach-Inv r out in (v.shape.struct, v.cells, v.shape.at, v.shape.is, v.shape.order)

Seen-not_empty :
    {i : Bool} {accepted taken hand : List ℤ} {cs : Cells} {t : Taken}
    → Seen i accepted taken hand cs t
    → (g : Heap) (q : Ref) → t ≢ stops_empty g q
Seen-not_empty sees_none g q = λ e. cc
Seen-not_empty (sees_signal i) g q = λ e. cc
Seen-not_empty (sees_head h) g q = λ e. cc

-- As long as accept has not failed without SIGINT, nor malloc for a node, a thread's section under the mutex of the queue is defined, and does not
-- end with a -1: the wait keeps `dequeue` from an empty queue.
pub Reach-take :
    (n : ℕ) (h : Heap) (s : Pool)
    → Reach n h s
    → s.failed ≡ false
    → (t : Taken) × (take_test s.interrupt s.heap s.queue ≡ some t)
      × ((g : Heap) (q : Ref) → t ≢ stops_empty g q)
Reach-take n h s r out =
    let v = Reach-Inv r out in
    let (t, e, seen) =
      take_test-Seen s.interrupt s.heap s.queue s.accepted s.taken (in_hand s.main) v.cells
        v.shape in
    (t, e, Seen-not_empty seen)

-- As long as accept and malloc have not failed, without an interrupt the queue never holds more clients than there are threads awake and without a
-- client, so that no client waits for a busy thread.
pub Reach-capacity :
    (n : ℕ) (h : Heap) (s : Pool)
    → Reach n h s
    → s.failed ≡ false
    → s.interrupt ≡ false
    → (m : ℕ) × (queue_size s.queue ≡ some m) × (m ≤ s.crew.idle + s.crew.roused + s.crew.closing)
Reach-capacity n h s r out i =
    let v = Reach-Inv r out in
    let c = v.counts in
    (
      length v.cells,
      ap queue_size v.shape.at ∙ queue_size-IsQueue s.heap v.shape.struct v.cells v.shape.is,
      ground (arith, c.slots, c.threads, c.calm, c.not_forced i, c.all_run i),
    )

-- As long as accept has not failed without SIGINT, nor malloc for a node, a thread sleeps only while the
-- queue is empty: no wake-up is lost.
pub Reach-asleep :
    (n : ℕ) (h : Heap) (s : Pool)
    → Reach n h s
    → s.failed ≡ false
    → 0 < s.crew.asleep
    → queue_size s.queue ≡ some 0
Reach-asleep n h s r out a =
    let v = Reach-Inv r out in
    ap queue_size v.shape.at
    ∙ queue_size-IsQueue s.heap v.shape.struct v.cells v.shape.is
    ∙ ap some (v.counts.calm a)

asleep-pending : (m : Main) → is_asleep m ≡ true → pending m ≡ 0
asleep-pending accepts a = refl
asleep-pending (sleeps fd) a = refl
asleep-pending (woken fd) a = refl
asleep-pending (brings fd) a = cc
asleep-pending left a = refl

-- As long as accept and malloc have not failed, without an interrupt the main thread sleeps only while every thread's slot is taken by a client in
-- the queue, a client that is served, or one that a thread has ended with.
pub Reach-full :
    (n : ℕ) (h : Heap) (s : Pool)
    → Reach n h s
    → s.failed ≡ false
    → s.interrupt ≡ false
    → is_asleep s.main ≡ true
    → (m : ℕ) × (queue_size s.queue ≡ some m) × (m + s.crew.serving + s.crew.lost ≡ n)
Reach-full n h s r out i a =
    let v = Reach-Inv r out in
    (
      length v.cells,
      ap queue_size v.shape.at ∙ queue_size-IsQueue s.heap v.shape.struct v.cells v.shape.is,
      ground (
        arith,
        v.counts.slots,
        v.counts.no_slot a,
        v.counts.not_forced i,
        asleep-pending s.main a,
      ),
    )
