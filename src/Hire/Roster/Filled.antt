-- ===== src/Hire/Roster/Filled.antt =====
-- The students that fill_global_students of HWs/HW4/main.c reads.
use cse344_coursework.Base.{
  ℕ, suc, ◌+◌, ◌≡◌, ◌≢◌, refl, ap, ◌∙◌, All, false, none, some, List, [], ◌∷◌, ◌++◌, map, ◌==◌, ℤ,
  Bytes, length, arith, All-append,
}
use cse344_coursework.Tokens.Join.{terminated, IsWord, runs-terminated}
use cse344_coursework.Lines.{newline, eof, calculate_line_number, calculate_line_number-runs}
use cse344_coursework.Lines.Texts.{IsLine, line_of, fgets_lines-terminated}
use cse344_coursework.Hire.Roster.{
  buffer, Fields, Entry, Locals, or_kept, scanned, school_of, entry_of, fill_loop, init_students,
  next_line, lines_left,
}

-- A student of the file, in its own line.
pub record Given : Type 0 where
  pub text : Bytes
  pub school : Bytes
  pub quality : ℤ
  pub speed : ℤ
  pub cost : ℤ

abbrev pub fields : Given → Fields
fields g = record {
  school = some g.school;
  quality = some g.quality;
  speed = some g.speed;
  cost = some g.cost;
}

-- The entry with the index.
abbrev pub entered : ℕ → Given → Entry
entered i g = record {
  school = g.school;
  quality = g.quality;
  speed = g.speed;
  cost = g.cost;
  busy = false;
  balance = 0;
  solved_hw = 0;
  index = i;
}

abbrev pub entered_from : ℕ → List Given → List Entry
entered_from i [] = []
entered_from i (g ∷ gs) = entered i g ∷ entered_from (i + 1) gs

abbrev pub texts : List Given → List Bytes
texts [] = []
texts (g ∷ gs) = g.text ∷ texts gs

-- A line that is not empty, fits, holds no byte 255, and that sscanf converts as a whole.
pub record IsGiven (scan : Bytes → Fields) (g : Given) : Type 0 where
  pub ne_nil : g.text ≢ []
  pub line : IsLine buffer g.text
  pub plain : All (λ x. x ≢ eof) g.text
  pub read : scan (line_of g.text) ≡ fields g

length-texts : (gs : List Given) → length (texts gs) ≡ length gs
length-texts [] = refl
length-texts (g ∷ gs) = ap suc (length-texts gs)

no_newline : (t : Bytes) → All (λ x. x ≢ b'\n') t → All (λ x. (x == newline) ≡ false) t
no_newline [] h = tt
no_newline (x ∷ t) (p, h) = (ground (arith, p), no_newline t h)

first_ne : (x : ℕ) (t : Bytes) → All (λ x. (x == newline) ≡ false) (x ∷ t) → x ≢ newline
first_ne x t (p, h) e = ground (arith, p, e)

words :
    (scan : Bytes → Fields) (gs : List Given)
    → All (IsGiven scan) gs
    → All (IsWord (λ x. x == newline)) (texts gs)
words scan [] h = tt
words scan (g ∷ gs) (given, h) = (
  record { ne_nil = given.ne_nil; plain = no_newline g.text given.line.one_line },
  words scan gs h,
)

lines :
    (scan : Bytes → Fields) (gs : List Given)
    → All (IsGiven scan) gs
    → All (IsLine buffer) (texts gs)
lines scan [] h = tt
lines scan (g ∷ gs) (given, h) = (given.line, lines scan gs h)

terminated-plain :
    (scan : Bytes → Fields) (gs : List Given)
    → All (IsGiven scan) gs
    → All (λ x. x ≢ eof) (terminated newline (texts gs))
terminated-plain scan [] h = tt
terminated-plain scan (g ∷ gs) (given, h) =
    All-append (λ x. x ≢ eof) g.text (newline ∷ terminated newline (texts gs)) given.plain
      ((λ e. omega (arith, e)), terminated-plain scan gs h)

line_number :
    (texts : List Bytes) (junk : ℕ)
    → All (IsWord (λ x. x == newline)) texts
    → All (λ x. x ≢ eof) (terminated newline texts)
    → calculate_line_number (terminated newline texts) junk ≡ length texts
unfolding calculate_line_number
line_number [] junk h p = refl
line_number ([] ∷ texts) junk (w, h) p = absurd (w.ne_nil refl)
line_number ((x ∷ t) ∷ texts) junk (w, h) p =
    let first : x ≢ newline = first_ne x t w.plain in
    calculate_line_number-runs x (t ++ (newline ∷ terminated newline texts)) junk first p
    ∙ ap (length {A = Bytes})
        (runs-terminated (λ y. y == newline) newline ((x ∷ t) ∷ texts) refl (w, h))

module _ (scan : Bytes → Fields) where
  fill_loop-entered :
      (gs : List Given) (i : ℕ) (line : Bytes) (l : Locals)
      → All (IsGiven scan) gs
      → fill_loop scan (length gs) i line l (map line_of (texts gs)) ≡ some (entered_from i gs)
  unfolding fill_loop next_line lines_left scanned or_kept entry_of school_of
  fill_loop-entered [] i line l h = refl
  fill_loop-entered (g ∷ gs) i line l (given, h) =
      rw (given.read, fill_loop-entered gs (i + 1) (line_of g.text) (scanned (fields g) l) h)

  -- From a file of students, a newline behind each, whose lines are not empty, fit in the buffer and
  -- are converted as a whole, every student is read, in order, with nothing earned yet.
  pub init_students-entered :
      (gs : List Given) (junk : ℕ)
      → All (IsGiven scan) gs
      → init_students scan (terminated b'\n' (texts gs)) junk ≡ some (entered_from 0 gs)
  unfolding init_students
  init_students-entered gs junk h =
      rw
        (
          line_number (texts gs) junk (words scan gs h) (terminated-plain scan gs h),
          length-texts gs,
          fgets_lines-terminated buffer (texts gs) (lines scan gs h),
        )
        (fill_loop-entered gs 0 [] (record { quality = none; speed = none; cost = none }) h)
