-- ===== src/Potato.antt =====
-- The hot potato game: HWs/HW3/main.c. The processes share a list of Process entries and the fifos;
-- what a section under a semaphore does is one step. `none` is an index out of bounds.
use cse344_coursework.Base.{
  All, ℕ, zero, suc, ◌+◌, ◌-◌, ◌%◌, ◌^◌, ◌<◌, ◌≡◌, ◌≢◌, Bool, true, false, not, ◌&&◌, ◌||◌, Option,
  none, some, List, [], ◌∷◌, ◌++◌, ◌==◌, ltb, if◌then◌else◌, ◌>>=◌, Bytes, length, get_elem?, set,
  map,
}
use cse344_coursework.Lines.{fgets_lines}
pub mod Enter
pub mod Fifos
pub mod Heat
pub mod Index
pub mod Moves
pub mod Outcome
pub mod Strike

abbrev pub max_name : ℕ
max_name = 255

-- `fd` is left out: each process overwrites it with its own descriptors.
pub record Process : Type 0 where
  pub id : ℕ
  pub cool_down : ℕ
  pub fifoname : Bytes

-- `line[strlen(line)-1] == '\n'` is taken off.
unfoldable pub strip_newline : Bytes → Bytes
strip_newline [] = []
strip_newline (x ∷ []) = if x == b'\n' then [] else x ∷ []
strip_newline (x ∷ y ∷ line) = x ∷ strip_newline (y ∷ line)

-- `while (fgets(...) != NULL)`; `line` is what the buffer holds.
unfoldable pub certain_loop : List Bytes → (counter : ℕ) → (line : Bytes) → Bytes
unfolding strip_newline
certain_loop [] counter line = line
certain_loop (l ∷ lines) zero line = strip_newline l
certain_loop (l ∷ lines) (suc counter) line = certain_loop lines counter l

unfoldable pub get_certain_fifo : (file : Bytes) → (counter : ℕ) → Bytes
unfolding certain_loop
get_certain_fifo file counter = certain_loop (fgets_lines max_name file []) counter []

-- The index of the entry with the pid, or the number of entries: getProcessIndex with the own pid,
-- and gpiWithPid.
unfoldable pub gpi_with_pid : List Process → (rec : ℕ) → ℕ
gpi_with_pid [] rec = 0
gpi_with_pid (p ∷ procs) rec =
    let rest = gpi_with_pid procs rec in if p.id == rec then 0 else suc rest

unfoldable pub get_process_index : List Process → (pid : ℕ) → ℕ
unfolding gpi_with_pid
get_process_index procs pid = gpi_with_pid procs pid

unfoldable pub check_potato_finish : List Process → Bool
check_potato_finish [] = true
check_potato_finish (p ∷ procs) =
    let rest = check_potato_finish procs in if not (p.cool_down == 0) then false else rest

-- `coolDown -= 1` on an unsigned int of 32 bits.
abbrev pub minus_one_32 : ℕ → ℕ
minus_one_32 n = (n + (2 ^ 32 - 1)) % 2 ^ 32

-- What a process does with the pid that it reads: the potato is not passed on.
unfoldable pub receive : List Process → (rec : ℕ) → Option (List Process)
unfolding gpi_with_pid
receive procs rec = do
  p ← get_elem? procs (gpi_with_pid procs rec)
  some (set procs (gpi_with_pid procs rec) (record p { cool_down = minus_one_32 p.cool_down }))

-- The section of init_shared_mem: the entry behind the others, and whether memFilled is posted.
unfoldable pub register :
    (file : Bytes) → (proc_num : ℕ) → (pid has_potato : ℕ) → List Process → List Process × Bool
unfolding get_certain_fifo
register file proc_num pid has_potato procs = (
  procs
      ++ (record {
        id = pid;
        cool_down = has_potato % 2 ^ 32;
        fifoname = get_certain_fifo file (length procs);
      }
          ∷ []),
  suc (length procs) == proc_num,
)

-- `cool_down > 0` when a process starts to play: only then it sends its pid.
unfoldable pub starts_hot : List Process → (pid : ℕ) → Option Bool
unfolding get_process_index
starts_hot procs pid = do
  p ← get_elem? procs (get_process_index procs pid)
  some (ltb 0 p.cool_down)

-- `ready` are the processes that have an entry and do not play yet, `flight` the pids in the fifos;
-- `dealt` are the potatoes' cool-downs as they came, and `struck` is set when a pid has been written into
-- the shared memory; both are not variables of the program.
pub record Game : Type 0 where
  pub procs : List Process
  pub filled : Bool
  pub ready : List ℕ
  pub flight : List ℕ
  pub dealt : List ℕ
  pub struck : Bool

-- The first bytes of the shared memory are `proc[0].id`; a process writes there once, from the
-- beginning.
unfoldable pub strike : (pid : ℕ) → List Process → List Process
strike pid [] = []
strike pid (p ∷ procs) = record p { id = pid } ∷ procs

-- A process that enters has a pid of its own. The descriptor that a potato is written to is a random
-- number, so that the potato may reach a fifo, the shared memory, or something else.
pub data Step (file : Bytes) (proc_num : ℕ) (g : Game) : Game → Type 0 where
  enter :
      (pid has_potato : ℕ)
      → gpi_with_pid g.procs pid ≡ length g.procs
      → All (λ r. r ≢ pid) g.ready
      → All (λ r. r ≢ pid) g.flight
      → Step file proc_num g (record g {
        procs = (register file proc_num pid has_potato g.procs).0;
        filled = g.filled || (register file proc_num pid has_potato g.procs).1;
        ready = pid ∷ g.ready;
        dealt = g.dealt ++ (has_potato % 2 ^ 32 ∷ []);
      })
  sends :
      (before after : List ℕ) (pid : ℕ)
      → g.filled ≡ true
      → g.ready ≡ before ++ (pid ∷ after)
      → starts_hot g.procs pid ≡ some true
      → Step file proc_num g (record g { ready = before ++ after; flight = g.flight ++ (pid ∷ []) })
  sends_into_memory :
      (before after : List ℕ) (pid : ℕ)
      → g.filled ≡ true
      → g.ready ≡ before ++ (pid ∷ after)
      → starts_hot g.procs pid ≡ some true
      → Step file proc_num g
          (record g { procs = strike pid g.procs; ready = before ++ after; struck = true })
  sends_elsewhere :
      (before after : List ℕ) (pid : ℕ)
      → g.filled ≡ true
      → g.ready ≡ before ++ (pid ∷ after)
      → starts_hot g.procs pid ≡ some true
      → Step file proc_num g (record g { ready = before ++ after })
  has_none :
      (before after : List ℕ) (pid : ℕ)
      → g.filled ≡ true
      → g.ready ≡ before ++ (pid ∷ after)
      → starts_hot g.procs pid ≡ some false
      → Step file proc_num g (record g { ready = before ++ after })
  receives :
      {procs : List Process} (before after : List ℕ) (rec : ℕ)
      → g.filled ≡ true
      → g.flight ≡ before ++ (rec ∷ after)
      → receive g.procs rec ≡ some procs
      → Step file proc_num g (record g { procs = procs; flight = before ++ after })

abbrev pub no_game : Game
no_game = record { procs = []; filled = false; ready = []; flight = []; dealt = []; struck = false }

pub data Reach (file : Bytes) (proc_num : ℕ) : Game → Type 0 where
  here : Reach file proc_num no_game
  next : {g h : Game} → Reach file proc_num g → Step file proc_num g h → Reach file proc_num h
