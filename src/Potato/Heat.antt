-- ===== src/Potato/Heat.antt =====
-- What holds of the cool-downs of the potatoes of HWs/HW3/main.c.
use cse344_coursework.Base.{
  ℕ, ◌+◌, ◌≤◌, ◌<◌, ◌≡◌, ◌≢◌, refl, All, false, some, List, [], ◌∷◌, ◌++◌, length, get_elem?, arith,
  ◌==◌, if◌then◌else◌,
}
use cse344_coursework.Potato.{Process, gpi_with_pid, Game}

-- How often a pid stands in a list.
abbrev pub times : ℕ → List ℕ → ℕ
times r [] = 0
times r (x ∷ xs) = (if x == r then 1 else 0) + times r xs

pub times-append : (r : ℕ) (xs ys : List ℕ) → times r (xs ++ ys) ≡ times r xs + times r ys
times-append r [] ys = omega arith
times-append r (x ∷ xs) ys = omega (arith, times-append r xs ys)

-- An entry that came with the cool-down `d` has lost at most one, and none while its potato is not
-- sent or not received; a potato in a fifo came with at least one.
pub record Warm (ready flight : List ℕ) (p : Process) (d : ℕ) : Type 0 where
  pub kept : times p.id ready + times p.id flight + d ≤ p.cool_down + 1
  pub low : p.cool_down ≤ d
  pub hot : 0 < times p.id flight → 1 ≤ d
  pub small : d < 4294967296

pub record Inv (g : Game) : Type 0 where
  pub same_length : length g.dealt ≡ length g.procs
  pub own :
      (i : ℕ) (p : Process)
      → get_elem? g.procs i ≡ some p
      → 0 < times p.id g.ready + times p.id g.flight
      → gpi_with_pid g.procs p.id ≡ i
  pub warm :
      (i : ℕ) (p : Process) (d : ℕ)
      → get_elem? g.procs i ≡ some p
      → get_elem? g.dealt i ≡ some d
      → Warm g.ready g.flight p d
  pub known :
      g.struck ≡ false
      → (r : ℕ) → gpi_with_pid g.procs r ≡ length g.procs
      → times r g.ready + times r g.flight ≡ 0

pub times-absent : (r : ℕ) (xs : List ℕ) → All (λ x. x ≢ r) xs → times r xs ≡ 0
times-absent r [] h = refl
times-absent r (x ∷ xs) (ne, h) = ground (arith, ne, times-absent r xs h)
