-- ===== src/RwLock/Safety.antt =====
-- What holds in every reachable state of the readers and writers.
use cse344_coursework.Base.{ℕ, ◌+◌, ◌≤◌, ◌<◌, ◌≡◌, arith, ◌⊎◌}
use cse344_coursework.RwLock.{
  Crowd, System, Signal, quiet, one_writer, all_readers, Wakes, wakes_none, no_sleeper,
  wakes_writers, wakes_readers, Step, begin_read, resume_read, end_read, begin_write, resume_write,
  end_write, spurious_read, spurious_write, Reach, here, next, read_test, read_resume, write_test,
  write_resume, read_end, write_end,
}

pub record Inv (n : ℕ) (s : System) : Type 0 where
  pub readers : s.lock.ar ≡ s.crowd.reading
  pub writers : s.lock.aw ≡ s.crowd.writing
  pub waiting_readers : s.lock.wr ≡ s.crowd.wait_read + s.crowd.woken_read
  pub waiting_writers : s.lock.ww ≡ s.crowd.wait_write + s.crowd.woken_write
  pub one_writer_only : s.crowd.writing ≤ 1
  pub exclusive : 0 < s.crowd.writing → s.crowd.reading ≡ 0
  pub reader_kept : 0 < s.crowd.wait_read → 0 < s.lock.aw + s.lock.ww
  pub writer_kept : 0 < s.crowd.wait_write → 0 < s.lock.ar + s.lock.aw + s.crowd.woken_write
  pub all_there :
      s.crowd.idle + s.crowd.wait_read + s.crowd.woken_read + s.crowd.reading + s.crowd.wait_write
        + s.crowd.woken_write + s.crowd.writing
      ≡ n

-- What a wake-up changes, by the signal.
Woken : Signal → Crowd → Crowd → Type 0
Woken quiet c d =
    (d.wait_read ≡ c.wait_read)
    × (d.woken_read ≡ c.woken_read)
    × (d.wait_write ≡ c.wait_write)
    × (d.woken_write ≡ c.woken_write)
Woken one_writer c d =
    (d.wait_read ≡ c.wait_read)
    × (d.woken_read ≡ c.woken_read)
    × (d.wait_write + d.woken_write ≡ c.wait_write + c.woken_write)
    × ((0 < d.wait_write → 0 < d.woken_write))
Woken all_readers c d =
    (d.wait_read ≡ 0)
    × (d.woken_read ≡ c.woken_read + c.wait_read)
    × (d.wait_write ≡ c.wait_write)
    × (d.woken_write ≡ c.woken_write)

Wakes-Woken :
    {g : Signal} {c d : Crowd}
    → Wakes g c d
    → Woken g c d × (d.idle ≡ c.idle) × (d.reading ≡ c.reading) × (d.writing ≡ c.writing)
unfolding Woken
Wakes-Woken wakes_none = ground arith
Wakes-Woken (no_sleeper z) = ground arith
Wakes-Woken (wakes_writers k lo hi) = ground arith
Wakes-Woken wakes_readers = ground arith

Step-Inv : {n : ℕ} {s t : System} → Step s t → Inv n s → Inv n t
unfolding read_test read_resume write_test write_resume read_end write_end Woken
Step-Inv (begin_read h) v = ground arith
Step-Inv (resume_read h) v = ground arith
Step-Inv (end_read h w) v = ground (arith, Wakes-Woken w)
Step-Inv (begin_write h) v = ground arith
Step-Inv (resume_write h) v = ground arith
Step-Inv (end_write h w) v = ground (arith, Wakes-Woken w)
Step-Inv (spurious_read h) v = ground arith
Step-Inv (spurious_write h) v = ground arith

pub Reach-Inv : {n : ℕ} {s : System} → Reach n s → Inv n s
Reach-Inv here = ground arith
Reach-Inv (next r st) = Step-Inv st (Reach-Inv r)

-- In every reachable state at most one thread writes, and while one writes none reads.
pub Reach-exclusive :
    (n : ℕ) (s : System)
    → Reach n s
    → (s.crowd.writing ≤ 1) × ((s.crowd.writing ≡ 0) ⊎ (s.crowd.reading ≡ 0))
Reach-exclusive n s r = let v = Reach-Inv r in (v.one_writer_only, ground arith)

-- No wake-up is lost: in every reachable state in which a thread sleeps on a condition variable,
-- some thread reads, writes, or has been woken, and will run its next section.
pub Reach-not_lost :
    (n : ℕ) (s : System)
    → Reach n s
    → 0 < s.crowd.wait_read + s.crowd.wait_write
    → 0 < s.crowd.reading + s.crowd.writing + s.crowd.woken_read + s.crowd.woken_write
Reach-not_lost n s r h = let v = Reach-Inv r in ground arith
