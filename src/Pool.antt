-- ===== src/Pool.antt =====
-- The server's threads: server_loop and the waits of thread_pool_handler in Final/Server/main.c,
-- after the barrier of init_component. A section under mAvailable or mQueue is one step; `enqueue`
-- and `dequeue` are those of Queue. `none` is undefined behaviour.
use cse344_coursework.Base.{
  ℕ, zero, suc, ◌+◌, ◌-◌, ◌<◌, ◌≡◌, ◌≢◌, ◌⊎◌, ℤ, pos, negsuc, minus_one, Bool, true, false, Option,
  none, some, List, [], ◌∷◌, ◌++◌, ◌==◌, if◌then◌else◌, ◌>>=◌,
}
use cse344_coursework.Queue.Nodes.{Ptr, null, Heap}
use cse344_coursework.Queue.{Ref, live, empty, enqueue, dequeue, queue_size}
pub mod Capacity
pub mod Kept
pub mod Order
pub mod Safety
pub mod Stuck

-- Where the main thread is, with the descriptor that it holds.
pub data Main : Type 0 where
  accepts : Main
  sleeps : ℤ → Main
  woken : ℤ → Main
  brings : ℤ → Main
  left : Main

-- How many threads are at the top of the loop, asleep on cQueue, woken from there, serving a
-- client, behind `++available`, and ended, without a client or with one.
pub record Crew : Type 0 where
  pub idle : ℕ
  pub asleep : ℕ
  pub roused : ℕ
  pub serving : ℕ
  pub closing : ℕ
  pub ended : ℕ
  pub lost : ℕ

-- `held` is set when a thread has ended inside the mutex mQueue. `accepted` and `taken` are what
-- accept and dequeue have returned, `taken` without -1. `failed` is set when accept has returned -1
-- without SIGINT, or malloc has failed in `enqueue`; it is not a variable of the program.
pub record Pool : Type 0 where
  pub heap : Heap
  pub queue : Ref
  pub available : ℤ
  pub interrupt : Bool
  pub held : Bool
  pub main : Main
  pub crew : Crew
  pub accepted : List ℤ
  pub taken : List ℤ
  pub failed : Bool

abbrev pub decrement : ℤ → ℤ
decrement (pos zero) = negsuc 0
decrement (pos (suc n)) = pos n
decrement (negsuc n) = negsuc (suc n)

abbrev pub increment : ℤ → ℤ
increment (pos n) = pos (suc n)
increment (negsuc zero) = pos 0
increment (negsuc (suc n)) = negsuc n

-- `while (available <= 0)`: sleep, or take a slot.
unfoldable pub slot_test : ℤ → ℤ → Main × ℤ
slot_test (pos zero) fd = (sleeps fd, pos 0)
slot_test (pos (suc n)) fd = (brings fd, decrement (pos (suc n)))
slot_test (negsuc n) fd = (sleeps fd, negsuc n)

-- Behind the wait: an interrupt leaves the loop, and a slot is taken all the same.
unfoldable pub slot_resume : (interrupt : Bool) → ℤ → ℤ → Main × ℤ
unfolding slot_test
slot_resume interrupt available fd =
    if interrupt then (brings fd, decrement available) else slot_test available fd

-- How a thread's section under mQueue ends: it sleeps, takes a descriptor, or leaves the loop, with
-- the mutex, on a -1 from `dequeue`, or out of the wait.
pub data Taken : Type 0 where
  waits : Taken
  takes : ℤ → Heap → Ref → Taken
  stops_inside : Taken
  stops_empty : Heap → Ref → Taken
  stops_waiting : Taken

unfoldable pub if_taken : ℤ → Heap → Ref → Taken
if_taken (negsuc zero) h queue = stops_empty h queue
if_taken (negsuc (suc n)) h queue = takes (negsuc (suc n)) h queue
if_taken (pos n) h queue = takes (pos n) h queue

-- From `while (queue->size == 0)` on. Where `interrupt` is found behind the loop, the mutex is not
-- unlocked.
unfoldable pub take_test : (interrupt : Bool) → Heap → Ref → Option Taken
unfolding if_taken
take_test interrupt h queue = do
  size ← queue_size queue
  if size == 0
      then some waits
      else if interrupt
      then some stops_inside
      else do (fd, h', queue') ← dequeue h queue; some (if_taken fd h' queue')

-- Behind the wait; `later` is what the second test of `interrupt`, behind the loop, finds.
unfoldable pub take_resume : (interrupt later : Bool) → Heap → Ref → Option Taken
unfolding take_test
take_resume interrupt later h queue =
    if interrupt then some stops_waiting else take_test later h queue

-- `pthread_cond_broadcast(&cQueue)`
unfoldable pub rouse_all : Crew → Crew
rouse_all c = record c { asleep = 0; roused = c.roused + c.asleep }

abbrev pub end_thread : Crew → Crew
end_thread c = record c { ended = c.ended + 1 }

-- The section's effect; the thread's old place in the crew is empty already.
unfoldable pub after_take : Taken → Crew → Pool → Pool
unfolding rouse_all
after_take waits c s = record s { crew = record c { asleep = c.asleep + 1 } }
after_take (takes fd h queue) c s = record s {
  heap = h;
  queue = queue;
  crew = record c { serving = c.serving + 1 };
  taken = s.taken ++ (fd ∷ []);
}
after_take stops_inside c s = record s { crew = end_thread c; held = true }
after_take (stops_empty h queue) c s = record s { heap = h; queue = queue; crew = end_thread c }
after_take stops_waiting c s = record s { crew = rouse_all (end_thread c) }

-- `pthread_cond_signal(&cAvailable)`: only the main thread waits there.
unfoldable pub wake_main : Main → Main
wake_main (sleeps fd) = woken fd
wake_main accepts = accepts
wake_main (woken fd) = woken fd
wake_main (brings fd) = brings fd
wake_main left = left

-- `enqueue` and the broadcast. The test of `queue` behind `enqueue` never holds.
unfoldable pub bring : (fresh : Ptr) → ℤ → Pool → Option Pool
unfolding rouse_all
bring fresh fd s = do
  (h, queue) ← enqueue s.heap s.queue fresh fd
  some (record s { heap = h; queue = queue; main = accepts; crew = rouse_all s.crew })

-- One step of the main thread, of a thread of the pool, or of the system: a signal, or a wake-up that
-- POSIX allows without one. `malloc` gives an unused address.
pub data Step (s : Pool) : Pool → Type 0 where
  accept :
      (fd : ℕ)
      → s.main ≡ accepts
      → Step s (record s {
        main = (slot_test s.available (pos fd)).0;
        available = (slot_test s.available (pos fd)).1;
        accepted = s.accepted ++ (pos fd ∷ []);
      })
  -- A -1 without SIGINT goes on like a descriptor.
  accept_fails :
      s.main ≡ accepts
      → s.interrupt ≡ false
      → Step s (record s {
        main = (slot_test s.available minus_one).0;
        available = (slot_test s.available minus_one).1;
        accepted = s.accepted ++ (minus_one ∷ []);
        failed = true;
      })
  no_accept :
      s.main ≡ accepts
      → s.interrupt ≡ true
      → Step s (record s { main = left; crew = rouse_all s.crew })
  resume_main :
      (fd : ℤ)
      → s.main ≡ woken fd
      → Step s (record s {
        main = (slot_resume s.interrupt s.available fd).0;
        available = (slot_resume s.interrupt s.available fd).1;
      })
  enqueues :
      {t : Pool} (fd : ℤ) (fresh : Ptr)
      → s.main ≡ brings fd
      → s.held ≡ false
      → fresh ≢ null
      → s.heap fresh ≡ none
      → bring fresh fd s ≡ some t
      → Step s t
  enqueue_fails :
      {t : Pool} (fd : ℤ)
      → s.main ≡ brings fd
      → s.held ≡ false
      → bring null fd s ≡ some t
      → Step s (record t { failed = true })
  take :
      (t : Taken)
      → 0 < s.crew.idle
      → s.held ≡ false
      → take_test s.interrupt s.heap s.queue ≡ some t
      → Step s (after_take t (record (s.crew) { idle = s.crew.idle - 1 }) s)
  resume_take :
      (t : Taken) (later : Bool)
      → 0 < s.crew.roused
      → s.held ≡ false
      → (s.interrupt ≡ true → later ≡ true)
      → take_resume s.interrupt later s.heap s.queue ≡ some t
      → Step s (
          after_take t
            (record (s.crew) { roused = s.crew.roused - 1 })
            (record s { interrupt = later }))
  quit :
      0 < s.crew.idle
      → s.interrupt ≡ true
      → Step s (record s { crew = end_thread (record (s.crew) { idle = s.crew.idle - 1 }) })
  lose :
      0 < s.crew.serving
      → Step s (record s {
        crew = record (s.crew) { serving = s.crew.serving - 1; lost = s.crew.lost + 1 };
      })
  hand_back :
      0 < s.crew.serving
      → Step s (record s {
        available = increment s.available;
        main = wake_main s.main;
        crew = record (s.crew) { serving = s.crew.serving - 1; closing = s.crew.closing + 1 };
      })
  close :
      0 < s.crew.closing
      → Step s (record s {
        crew = record (s.crew) { closing = s.crew.closing - 1; idle = s.crew.idle + 1 };
      })
  signal : Step s (record s { interrupt = true })
  spurious_main : Step s (record s { main = wake_main s.main })
  spurious_take :
      0 < s.crew.asleep
      → Step s (record s {
        crew = record (s.crew) { asleep = s.crew.asleep - 1; roused = s.crew.roused + 1 };
      })

-- Behind the barrier, with `poolSize` threads.
unfoldable pub start : (pool_size : ℕ) → Heap → Pool
start pool_size h = record {
  heap = h;
  queue = live empty;
  available = pos pool_size;
  interrupt = false;
  held = false;
  main = accepts;
  crew = record {
    idle = pool_size;
    asleep = 0;
    roused = 0;
    serving = 0;
    closing = 0;
    ended = 0;
    lost = 0;
  };
  accepted = [];
  taken = [];
  failed = false;
}

pub data Reach (pool_size : ℕ) (h : Heap) : Pool → Type 0 where
  here : Reach pool_size h (start pool_size h)
  next : {s t : Pool} → Reach pool_size h s → Step s t → Reach pool_size h t
