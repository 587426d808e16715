-- ===== src/Hire/Roster.antt =====
-- init_students and fill_global_students of HWs/HW4/main.c. sscanf of a line is a parameter: what its
-- conversions give, `none` for one that is not reached.
use cse344_coursework.Base.{
  ℕ, zero, suc, ◌+◌, ◌≡◌, Bool, true, false, Option, none, some, List, [], ◌∷◌, if◌then◌else◌,
  ◌>>=◌, ℤ, Bytes,
}
use cse344_coursework.Lines.{fgets_lines, calculate_line_number}
pub mod Filled

-- `BUFFER`
abbrev pub buffer : ℕ
buffer = 255

pub record Fields : Type 0 where
  pub school : Option Bytes
  pub quality : Option ℤ
  pub speed : Option ℤ
  pub cost : Option ℤ

-- A student as the loop leaves it; `index` is `args.i`.
pub record Entry : Type 0 where
  pub school : Bytes
  pub quality : ℤ
  pub speed : ℤ
  pub cost : ℤ
  pub busy : Bool
  pub balance : ℕ
  pub solved_hw : ℕ
  pub index : ℕ

-- The locals `quality`, `speed` and `cost`, which keep their values from line to line.
pub record Locals : Type 0 where
  pub quality : Option ℤ
  pub speed : Option ℤ
  pub cost : Option ℤ

unfoldable pub or_kept {ℓ} : {A : Type ℓ} → Option A → Option A → Option A
or_kept none old = old
or_kept (some a) old = some a

-- `strcpy(school, "\0")` and the conversion.
unfoldable pub school_of : Option Bytes → Bytes
school_of none = []
school_of (some s) = s

unfoldable pub scanned : Fields → Locals → Locals
unfolding or_kept
scanned f l = record {
  quality = or_kept f.quality l.quality;
  speed = or_kept f.speed l.speed;
  cost = or_kept f.cost l.cost;
}

-- `none` is a local that is read before it was set.
unfoldable pub entry_of : (i : ℕ) → Fields → Locals → Option Entry
unfolding school_of
entry_of i f l = do
  q ← l.quality
  s ← l.speed
  c ← l.cost
  some (record {
    school = school_of f.school;
    quality = q;
    speed = s;
    cost = c;
    busy = false;
    balance = 0;
    solved_hw = 0;
    index = i;
  })

-- `fgets(line, BUFFER, fptr)`, whose result is not looked at: at the end of the file the line stays.
unfoldable pub next_line : List Bytes → (line : Bytes) → Bytes
next_line [] line = line
next_line (l ∷ lines) line = l

unfoldable pub lines_left : List Bytes → List Bytes
lines_left [] = []
lines_left (l ∷ lines) = lines

module _ (scan : Bytes → Fields) where
  -- The loop with `count` rounds to go.
  unfoldable pub fill_loop :
      (count i : ℕ) (line : Bytes) → Locals → List Bytes → Option (List Entry)
  unfolding next_line lines_left scanned
  fill_loop zero i line l lines = some []
  fill_loop (suc count) i line l lines = do
    let line' = next_line lines line
    let l' = scanned (scan line') l
    entry ← entry_of i (scan line') l'
    entries ← fill_loop count (i + 1) line' l' (lines_left lines)
    some (entry ∷ entries)

  -- `init_students`; `junk` is what `prev` of calculate_line_number holds before it is set.
  unfoldable pub init_students : (file : Bytes) → (junk : ℕ) → Option (List Entry)
  unfolding fill_loop
  init_students file junk =
      fill_loop (calculate_line_number file junk) 0 []
        (record { quality = none; speed = none; cost = none }) (fgets_lines buffer file [])
