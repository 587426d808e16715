-- ===== src/Options.antt =====
-- Command lines. `getopt` of the C library is not modelled: a program is given the options that it
-- returns, in order, and whether arguments are left behind them. `atoi` is a parameter. `none` is an
-- exit with the usage text.
use cse344_coursework.Base.{
  ℕ, ◌≡◌, Bool, true, false, not, ◌&&◌, Option, none, some, List, [], ◌∷◌, leb, if◌then◌else◌,
  ◌>>=◌, Bytes, All, arith,
}
pub mod Server
pub mod Client
pub mod Clinic
pub mod Potato
pub mod Finder
pub mod Homework

-- What `getopt` returns and what `optarg` points to.
pub record Opt : Type 0 where
  pub letter : ℕ
  pub optarg : Bytes

abbrev pub opt : ℕ → Bytes → Opt
opt c arg = record { letter = c; optarg = arg }

abbrev pub is_digit : ℕ → Bool
is_digit c = leb b'0' c && leb c b'9'

-- `isNotaNumber` (-1 is true); the empty text passes.
unfoldable pub is_not_a_number : Bytes → Bool
is_not_a_number [] = false
is_not_a_number (c ∷ str) = if not (is_digit c) then true else is_not_a_number str

pub is_not_a_number_iff :
    (str : Bytes) → is_not_a_number str ≡ false → All (λ c. is_digit c ≡ true) str
unfolding is_not_a_number
is_not_a_number_iff [] h = tt
is_not_a_number_iff (c ∷ str) h = (ground arith, is_not_a_number_iff str (ground arith))

-- `while ((opt = getopt(...)) != -1) switch (opt)`.
abbrev pub each_opt {ℓ} : {S : Type ℓ} → (S → Opt → Option S) → S → List Opt → Option S
each_opt step s [] = some s
each_opt step s (o ∷ os) = do s' ← step s o; each_opt step s' os

-- A program that did not exit left a state with the property.
abbrev pub Ensures {ℓ κ} : {S : Type ℓ} → (S → Type κ) → Option S → Type κ
Ensures P none = Unit
Ensures P (some s) = P s

Ensures->>= {ℓ κ} :
    {S : Type ℓ} (P : S → Type κ) (r : Option S) (f : S → List Opt → Option S) (os : List Opt)
    → Ensures P r
    → ((s : S) → P s → Ensures P (f s os))
    → Ensures P (r >>= λ s. f s os)
Ensures->>= P none f os q k = tt
Ensures->>= P (some s) f os q k = k s q

-- A property that every option keeps holds in the end.
pub each_opt-Ensures {ℓ κ} :
    {S : Type ℓ} (P : S → Type κ) (step : S → Opt → Option S)
    → ((s : S) (o : Opt) → P s → Ensures P (step s o))
    → (s : S) (os : List Opt) → P s
    → Ensures P (each_opt step s os)
each_opt-Ensures P step keep s [] p = p
each_opt-Ensures P step keep s (o ∷ os) p =
    Ensures->>= P (step s o) (each_opt step) os (keep s o p)
      (λ s' q. each_opt-Ensures P step keep s' os q)

pub Ensures-bind {ℓ κ} :
    {S : Type ℓ} (P Q : S → Type κ) (r : Option S) (f : S → Option S)
    → Ensures P r
    → ((s : S) → P s → Ensures Q (f s))
    → Ensures Q (r >>= f)
Ensures-bind P Q none f p k = tt
Ensures-bind P Q (some s) f p k = k s p
