-- ===== src/Base/Strings.antt =====
-- C strings as lists of character codes, without the closing NUL.
use Prim.Native.Nat.{ℕ}
use Prim.Native.Char.{code}
use Prim.Native.String.{String}
use mathlib.Core.Path.{◌≡◌, refl}
use mathlib.Core.Logic.{◌↔◌}
use mathlib.Core.Bool.{Bool, true, false, ◌&&◌}
use mathlib.Core.List.{List, [], ◌∷◌}
use native.Mathlib.Omega.{arith}
use cse344_coursework.Base.Tests.{◌==◌}

abbrev pub Bytes : Type 0
Bytes = List ℕ

abbrev pub codes : String → Bytes
codes String.[] = []
codes (String.◌∷◌ c s) = code c ∷ codes s

-- `strcmp(a, b) == 0`
abbrev pub str_eq : Bytes → Bytes → Bool
str_eq [] [] = true
str_eq [] (y ∷ b) = false
str_eq (x ∷ a) [] = false
str_eq (x ∷ a) (y ∷ b) = (x == y) && str_eq a b

pub str_eq_iff : (a b : Bytes) → (str_eq a b ≡ true) ↔ (a ≡ b)
str_eq_iff [] [] = ground arith
str_eq_iff [] (y ∷ b) = ground arith
str_eq_iff (x ∷ a) [] = ground arith
str_eq_iff (x ∷ a) (y ∷ b) = ground (arith, str_eq_iff a b)

pub str_eq_refl : (a : Bytes) → str_eq a a ≡ true
str_eq_refl a = (str_eq_iff a a).1 refl
