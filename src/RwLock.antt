-- ===== src/RwLock.antt =====
-- The readers and writers of the table: the counters AR, AW, WR and WW of Final/Server/server.h, and
-- the four sections of parse_query (Final/Server/main.c) that hold the mutex mRW.
use cse344_coursework.Base.{
  ℕ, ◌+◌, ◌-◌, ◌≤◌, ◌<◌, ◌≡◌, Bool, true, false, ◌&&◌, ltb, ◌==◌, if◌then◌else◌,
}
pub mod Safety

pub record Lock : Type 0 where
  pub ar : ℕ
  pub aw : ℕ
  pub wr : ℕ
  pub ww : ℕ

abbrev pub initial : Lock
initial = record { ar = 0; aw = 0; wr = 0; ww = 0 }

-- The loop test of a reader: it enters (true), or counts itself as waiting.
unfoldable pub read_test : Lock → Bool × Lock
read_test l =
    if ltb 0 (l.aw + l.ww)
    then (false, record l { wr = l.wr + 1 })
    else (true, record l { ar = l.ar + 1 })

-- Behind `pthread_cond_wait`: `WR--`, and the test again.
unfoldable pub read_resume : Lock → Bool × Lock
unfolding read_test
read_resume l = read_test (record l { wr = l.wr - 1 })

unfoldable pub write_test : Lock → Bool × Lock
write_test l =
    if ltb 0 (l.aw + l.ar)
    then (false, record l { ww = l.ww + 1 })
    else (true, record l { aw = l.aw + 1 })

unfoldable pub write_resume : Lock → Bool × Lock
unfolding write_test
write_resume l = write_test (record l { ww = l.ww - 1 })

-- Which condition variable a section signals: none, okToWrite once, or okToRead to all.
pub data Signal : Type 0 where
  quiet one_writer all_readers : Signal

unfoldable pub read_end : Lock → Lock × Signal
read_end l =
    let l' : Lock = record l { ar = l.ar - 1 } in
    (l', if l'.ar == 0 && ltb 0 l'.ww then one_writer else quiet)

unfoldable pub write_end : Lock → Lock × Signal
write_end l =
    let l' : Lock = record l { aw = l.aw - 1 } in
    (l', if ltb 0 l'.ww then one_writer else if ltb 0 l'.wr then all_readers else quiet)

-- How many threads stand where. `wait_read` and `wait_write` sleep in `pthread_cond_wait`; the woken
-- ones have left it and want the mutex.
pub record Crowd : Type 0 where
  pub idle : ℕ
  pub wait_read : ℕ
  pub woken_read : ℕ
  pub reading : ℕ
  pub wait_write : ℕ
  pub woken_write : ℕ
  pub writing : ℕ

pub record System : Type 0 where
  pub lock : Lock
  pub crowd : Crowd

abbrev pub start : ℕ → System
start n = record {
  lock = initial;
  crowd = record {
    idle = n;
    wait_read = 0;
    woken_read = 0;
    reading = 0;
    wait_write = 0;
    woken_write = 0;
    writing = 0;
  };
}

-- A reader that leaves `idle` or `woken_read` goes on by the result of its test.
abbrev pub reader_goes : Bool → Crowd → Crowd
reader_goes true c = record c { reading = c.reading + 1 }
reader_goes false c = record c { wait_read = c.wait_read + 1 }

abbrev pub writer_goes : Bool → Crowd → Crowd
writer_goes true c = record c { writing = c.writing + 1 }
writer_goes false c = record c { wait_write = c.wait_write + 1 }

-- `pthread_cond_signal` wakes at least one sleeper if there is one, here `k` of them;
-- `pthread_cond_broadcast` wakes all.
pub data Wakes : Signal → Crowd → Crowd → Type 0 where
  wakes_none : {c : Crowd} → Wakes quiet c c
  no_sleeper : {c : Crowd} → c.wait_write ≡ 0 → Wakes one_writer c c
  wakes_writers :
      {c : Crowd} (k : ℕ)
      → 1 ≤ k
      → k ≤ c.wait_write
      → Wakes one_writer c
          (record c { wait_write = c.wait_write - k; woken_write = c.woken_write + k })
  wakes_readers :
      {c : Crowd}
      → Wakes all_readers c (record c { wait_read = 0; woken_read = c.woken_read + c.wait_read })

-- One section under the mutex, or a wake-up without a signal, which POSIX allows.
pub data Step (s : System) : System → Type 0 where
  begin_read :
      0 < s.crowd.idle
      → Step s (record {
        lock = (read_test s.lock).1;
        crowd = reader_goes (read_test s.lock).0 (record (s.crowd) { idle = s.crowd.idle - 1 });
      })
  resume_read :
      0 < s.crowd.woken_read
      → Step s (record {
        lock = (read_resume s.lock).1;
        crowd =
            reader_goes
              (read_resume s.lock).0
              (record (s.crowd) { woken_read = s.crowd.woken_read - 1 });
      })
  end_read :
      {c : Crowd}
      → 0 < s.crowd.reading
      → Wakes
          (read_end s.lock).1
          (record (s.crowd) { reading = s.crowd.reading - 1; idle = s.crowd.idle + 1 })
          c
      → Step s (record { lock = (read_end s.lock).0; crowd = c })
  begin_write :
      0 < s.crowd.idle
      → Step s (record {
        lock = (write_test s.lock).1;
        crowd = writer_goes (write_test s.lock).0 (record (s.crowd) { idle = s.crowd.idle - 1 });
      })
  resume_write :
      0 < s.crowd.woken_write
      → Step s (record {
        lock = (write_resume s.lock).1;
        crowd =
            writer_goes
              (write_resume s.lock).0
              (record (s.crowd) { woken_write = s.crowd.woken_write - 1 });
      })
  end_write :
      {c : Crowd}
      → 0 < s.crowd.writing
      → Wakes
          (write_end s.lock).1
          (record (s.crowd) { writing = s.crowd.writing - 1; idle = s.crowd.idle + 1 })
          c
      → Step s (record { lock = (write_end s.lock).0; crowd = c })
  spurious_read :
      0 < s.crowd.wait_read
      → Step s (record s {
        crowd = record (s.crowd) {
          wait_read = s.crowd.wait_read - 1;
          woken_read = s.crowd.woken_read + 1;
        };
      })
  spurious_write :
      0 < s.crowd.wait_write
      → Step s (record s {
        crowd = record (s.crowd) {
          wait_write = s.crowd.wait_write - 1;
          woken_write = s.crowd.woken_write + 1;
        };
      })

pub data Reach (n : ℕ) : System → Type 0 where
  here : Reach n (start n)
  next : {s t : System} → Reach n s → Step s t → Reach n t
