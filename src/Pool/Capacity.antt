-- ===== src/Pool/Capacity.antt =====
-- The numbers of the server's pool (server_loop and thread_pool_handler of Final/Server/main.c): the
-- free slots, the clients and the threads, in every reachable state.
use mathlib.Core.Path.{subst}
use cse344_coursework.Base.{
  ℕ, zero, suc, ◌+◌, ◌-◌, ◌<◌, ◌≡◌, ◌≢◌, ◌⊎◌, inl, inr, refl, ap, sym, ℤ, pos, negsuc, pos_part,
  neg_part, Bool, true, false, none, some, [], ◌∷◌, ◌++◌, length, length-append, arith,
}
use cse344_coursework.Queue.Nodes.{Ptr, null}
use cse344_coursework.Queue.Chain.{Cells}
use cse344_coursework.Pool.{
  Main, accepts, sleeps, woken, brings, left, Crew, Pool, decrement, increment, slot_test,
  slot_resume, Taken, stops_waiting, rouse_all, after_take, wake_main, bring, end_thread,
}
use cse344_coursework.Pool.Order.{
  Shape, Seen, sees_none, sees_signal, sees_head, in_hand, enqueue-Shape,
}

-- 1 if the main thread has a slot for its client, and if it sleeps.
abbrev pub pending : Main → ℕ
pending accepts = 0
pending (sleeps fd) = 0
pending (woken fd) = 0
pending (brings fd) = 1
pending left = 0

abbrev pub is_asleep : Main → Bool
is_asleep accepts = false
is_asleep (sleeps fd) = true
is_asleep (woken fd) = false
is_asleep (brings fd) = false
is_asleep left = false

-- With `n` threads and `m` descriptors in the queue.
pub record Counts (n m : ℕ) (available : ℤ) (interrupt held : Bool) (main : Main) (c : Crew)
    : Type 0 where
  pub slots : pos_part available + pending main + m + c.serving + c.lost ≡ n + neg_part available
  pub threads : c.idle + c.asleep + c.roused + c.serving + c.closing + c.ended + c.lost ≡ n
  pub calm : 0 < c.asleep → m ≡ 0
  pub no_slot : is_asleep main ≡ true → pos_part available ≡ 0
  pub not_forced : interrupt ≡ false → neg_part available ≡ 0
  pub all_run : interrupt ≡ false → c.ended ≡ 0
  pub not_held : interrupt ≡ false → held ≡ false

pub record Inv (n : ℕ) (s : Pool) : Type 0 where
  pub cells : Cells
  pub shape : Shape s.heap s.queue s.accepted s.taken (in_hand s.main) cells
  pub counts : Counts n (length cells) s.available s.interrupt s.held s.main s.crew

increment-parts :
    (a : ℤ) → pos_part (increment a) + neg_part a ≡ pos_part a + 1 + neg_part (increment a)
increment-parts (pos n) = omega arith
increment-parts (negsuc zero) = omega arith
increment-parts (negsuc (suc n)) = omega arith

decrement-parts :
    (a : ℤ) → pos_part (decrement a) + neg_part a + 1 ≡ pos_part a + neg_part (decrement a)
decrement-parts (pos zero) = omega arith
decrement-parts (pos (suc n)) = omega arith
decrement-parts (negsuc n) = omega arith

increment-neg : (a : ℤ) → neg_part a ≡ 0 → neg_part (increment a) ≡ 0
increment-neg (pos n) h = refl
increment-neg (negsuc zero) h = refl
increment-neg (negsuc (suc n)) h = absurd (omega arith)

pub wake_main-awake : (m : Main) → is_asleep (wake_main m) ≡ false
unfolding wake_main
wake_main-awake accepts = refl
wake_main-awake (sleeps fd) = refl
wake_main-awake (woken fd) = refl
wake_main-awake (brings fd) = refl
wake_main-awake left = refl

pub wake_main-pending : (m : Main) → pending (wake_main m) ≡ pending m
unfolding wake_main
wake_main-pending accepts = refl
wake_main-pending (sleeps fd) = refl
wake_main-pending (woken fd) = refl
wake_main-pending (brings fd) = refl
wake_main-pending left = refl

pub in_hand-wake_main : (m : Main) → in_hand (wake_main m) ≡ in_hand m
unfolding wake_main
in_hand-wake_main accepts = refl
in_hand-wake_main (sleeps fd) = refl
in_hand-wake_main (woken fd) = refl
in_hand-wake_main (brings fd) = refl
in_hand-wake_main left = refl

module _ {n m : ℕ} {interrupt held : Bool} {c : Crew} where
  pub slot_test-Counts :
      (a : ℤ) (main : Main) (fd : ℤ)
      → pending main ≡ 0
      → Counts n m a interrupt held main c
      → Counts n m (slot_test a fd).1 interrupt held (slot_test a fd).0 c
  unfolding slot_test
  slot_test-Counts (pos zero) main fd p v = ground arith
  slot_test-Counts (pos (suc k)) main fd p v = ground arith
  slot_test-Counts (negsuc k) main fd p v = ground arith

  pub hand_back-Counts :
      (a : ℤ) (main : Main)
      → 0 < c.serving
      → Counts n m a interrupt held main c
      → Counts n m
          (increment a)
          interrupt
          held
          (wake_main main)
          (record c { serving = c.serving - 1; closing = c.closing + 1 })
  hand_back-Counts a main h v =
      ground
        (arith, increment-parts a, increment-neg a, wake_main-awake main, wake_main-pending main)

pub slot_resume-Counts :
    {n m : ℕ} {held : Bool} {c : Crew} (interrupt : Bool) (a : ℤ) (main : Main) (fd : ℤ)
    → pending main ≡ 0
    → Counts n m a interrupt held main c
    → Counts n m (slot_resume interrupt a fd).1 interrupt held (slot_resume interrupt a fd).0 c
unfolding slot_resume
slot_resume-Counts true a main fd p v = ground (arith, decrement-parts a)
slot_resume-Counts false a main fd p v = slot_test-Counts a main fd p v

pub in_hand-slot_test : (a fd : ℤ) → in_hand (slot_test a fd).0 ≡ fd ∷ []
unfolding slot_test
in_hand-slot_test (pos zero) fd = refl
in_hand-slot_test (pos (suc n)) fd = refl
in_hand-slot_test (negsuc n) fd = refl

pub in_hand-slot_resume :
    (interrupt : Bool) (a fd : ℤ) → in_hand (slot_resume interrupt a fd).0 ≡ fd ∷ []
unfolding slot_resume
in_hand-slot_resume true a fd = refl
in_hand-slot_resume false a fd = in_hand-slot_test a fd

-- A thread has left the top of the loop or the wait.
pub record Left (c d : Crew) : Type 0 where
  pub waiting : c.idle + c.roused + 1 ≡ d.idle + d.roused
  pub asleep : c.asleep ≡ d.asleep
  pub serving : c.serving ≡ d.serving
  pub closing : c.closing ≡ d.closing
  pub ended : c.ended ≡ d.ended
  pub lost : c.lost ≡ d.lost

pub after_take-Inv :
    {n : ℕ} (s : Pool) (c : Crew) (cs : Cells) (t : Taken)
    → Left c s.crew
    → Shape s.heap s.queue s.accepted s.taken (in_hand s.main) cs
    → Counts n (length cs) s.available s.interrupt s.held s.main s.crew
    → Seen s.interrupt s.accepted s.taken (in_hand s.main) cs t
    → Inv n (after_take t c s)
unfolding after_take
after_take-Inv s c cs _ l h v sees_none = record { cells = cs; shape = h; counts = ground arith }
after_take-Inv s c cs _ l h v (sees_signal i) = record {
  cells = cs;
  shape = h;
  counts = ground arith;
}
after_take-Inv s c _ _ l h v (sees_head {cs = cs} h') = record {
  cells = cs;
  shape = h';
  counts = ground arith;
}

rouse-Counts :
    {n m : ℕ} {a : ℤ} {held : Bool} {main : Main} (c d : Crew)
    → Left c d
    → Counts n m a true held main d
    → Counts n m a true held main (rouse_all (end_thread c))
unfolding rouse_all
rouse-Counts c d l v = ground arith

pub after_resume-Inv :
    {n : ℕ} (s : Pool) (c : Crew) (cs : Cells) (t : Taken)
    → Left c s.crew
    → Shape s.heap s.queue s.accepted s.taken (in_hand s.main) cs
    → Counts n (length cs) s.available s.interrupt s.held s.main s.crew
    → (Seen s.interrupt s.accepted s.taken (in_hand s.main) cs t
        ⊎ ((s.interrupt ≡ true) × (t ≡ stops_waiting)))
    → Inv n (after_take t c s)
unfolding after_take rouse_all
after_resume-Inv s c cs t l h v (inl seen) = after_take-Inv s c cs t l h v seen
after_resume-Inv {n} s c cs t l h v (inr (i, e)) =
    subst (λ t'. Inv n (after_take t' c s)) (sym e)
      (record { cells = cs; shape = h; counts = ground arith })

-- The main thread's `enqueue` goes through.
pub bring-Inv :
    {n : ℕ} (s : Pool) (fd : ℤ) (fresh : Ptr)
    → s.main ≡ brings fd
    → fresh ≢ null
    → s.heap fresh ≡ none
    → Inv n s
    → (t : Pool) × (bring fresh fd s ≡ some t) × Inv n t
unfolding bring rouse_all
bring-Inv {n} s fd fresh m ne un v =
    let (g, q, e, h) =
      enqueue-Shape s.heap s.queue s.accepted s.taken fd v.cells fresh
        (subst (λ x. Shape s.heap s.queue s.accepted s.taken (in_hand x) v.cells) m v.shape) ne
        un in
    let p : pending s.main ≡ 1 = ap pending m in
    (
      record s { heap = g; queue = q; main = accepts; crew = rouse_all s.crew },
      rw e,
      record {
        cells = v.cells ++ ((fresh, fd) ∷ []);
        shape = h;
        counts = ground (arith, p, length-append v.cells ((fresh, fd) ∷ []));
      },
    )
