-- ===== src/Potato/Fifos.antt =====
-- The fifo names of HWs/HW3/main.c: get_certain_fifo and init_shared_mem.
use cse344_coursework.Base.{
  ℕ, zero, suc, ◌≡◌, refl, ap, ◌∙◌, All, some, List, [], ◌∷◌, ◌++◌, map, Bytes, length, get_elem?,
}
use cse344_coursework.Tokens.Join.{terminated}
use cse344_coursework.Lines.Texts.{IsLine, line_of, fgets_lines-terminated}
use cse344_coursework.Potato.{
  max_name, strip_newline, certain_loop, get_certain_fifo, Process, register,
}

pub strip_newline-line : (name : Bytes) → strip_newline (name ++ (b'\n' ∷ [])) ≡ name
unfolding strip_newline
strip_newline-line [] = refl
strip_newline-line (x ∷ []) = refl
strip_newline-line (x ∷ y ∷ name) = ap (λ t. x ∷ t) (strip_newline-line (y ∷ name))

certain_loop-names :
    (names : List Bytes) (i : ℕ) (line name : Bytes)
    → get_elem? names i ≡ some name
    → certain_loop (map line_of names) i line ≡ name
unfolding certain_loop
certain_loop-names [] i line name e = cc
certain_loop-names (n ∷ names) zero line name e =
    strip_newline-line n ∙ (let same : n ≡ name = cc in same)
certain_loop-names (n ∷ names) (suc i) line name e = certain_loop-names names i (line_of n) name e

-- From a file of names, a newline behind each, the process that finds `i` entries before its own gets
-- name `i`, so that different processes use different lines. Each name fits in the buffer.
pub register-fifoname :
    (names : List Bytes) (proc_num pid has_potato : ℕ) (procs : List Process) (name : Bytes)
    → All (IsLine max_name) names
    → get_elem? names (length procs) ≡ some name
    → (p : Process) × ((register (terminated b'\n' names) proc_num pid has_potato procs).0
        ≡ procs ++ (p ∷ []))
      × (p.fifoname ≡ name)
      × (p.id ≡ pid)
unfolding register get_certain_fifo
register-fifoname names proc_num pid has_potato procs name h e = (
  _,
  refl,
  ap (λ ls. certain_loop ls (length procs) []) (fgets_lines-terminated max_name names h)
      ∙ certain_loop-names names (length procs) [] name e,
  refl,
)
