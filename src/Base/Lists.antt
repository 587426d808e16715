-- ===== src/Base/Lists.antt =====
-- Lists measured and indexed by native numbers, under the library's names.
use Prim.Native.Nat.{ℕ, zero, suc, ◌+◌, ◌≤◌, ◌<◌}
use mathlib.Core.Path.{◌≡◌, refl, ap, subst}
use mathlib.Core.Logic.{◌≢◌}
use mathlib.Core.Bool.{Bool, true, ◌&&◌}
use mathlib.Core.List.{List, [], ◌∷◌, ◌++◌, map}
use mathlib.Core.Option.{Option, none, some}
use native.Mathlib.Omega.{arith}

module _ {ℓ} {A : Type ℓ} where
  abbrev pub length : List A → ℕ
  length [] = 0
  length (x ∷ xs) = suc (length xs)

  abbrev pub get_elem? : List A → ℕ → Option A
  get_elem? [] i = none
  get_elem? (x ∷ xs) zero = some x
  get_elem? (x ∷ xs) (suc i) = get_elem? xs i

  -- A write out of bounds changes nothing.
  abbrev pub set : List A → ℕ → A → List A
  set [] i v = []
  set (x ∷ xs) zero v = v ∷ xs
  set (x ∷ xs) (suc i) v = x ∷ set xs i v

  abbrev pub take : ℕ → List A → List A
  take zero xs = []
  take (suc n) [] = []
  take (suc n) (x ∷ xs) = x ∷ take n xs

  abbrev pub drop : ℕ → List A → List A
  drop zero xs = xs
  drop (suc n) [] = []
  drop (suc n) (x ∷ xs) = drop n xs

  abbrev pub replicate : ℕ → A → List A
  replicate zero a = []
  replicate (suc n) a = a ∷ replicate n a

  abbrev pub All {κ} : (A → Type κ) → List A → Type κ
  All P [] = Unit
  All P (x ∷ xs) = P x × All P xs

  pub length-append : (xs ys : List A) → length (xs ++ ys) ≡ length xs + length ys
  length-append [] ys = omega arith
  length-append (x ∷ xs) ys = omega (arith, length-append xs ys)

module _ {ℓ} {A : Type ℓ} where
  pub take-drop-append : (p q r : List A) → take (length q) (drop (length p) (p ++ (q ++ r))) ≡ q
  take-drop-append [] [] r = refl
  take-drop-append [] (x ∷ q) r = ap (λ t. x ∷ t) (take-drop-append [] q r)
  take-drop-append (x ∷ p) q r = take-drop-append p q r

  pub length-set : (xs : List A) (i : ℕ) (v : A) → length (set xs i v) ≡ length xs
  length-set [] i v = refl
  length-set (x ∷ xs) zero v = refl
  length-set (x ∷ xs) (suc i) v = ap suc (length-set xs i v)

  pub get_elem?-set_self :
      (xs : List A) (i : ℕ) (v : A) → i < length xs → get_elem? (set xs i v) i ≡ some v
  get_elem?-set_self [] i v h = elim h [ ]
  get_elem?-set_self (x ∷ xs) zero v h = refl
  get_elem?-set_self (x ∷ xs) (suc i) v h = get_elem?-set_self xs i v (omega arith)

  pub get_elem?-set_ne :
      (xs : List A) {i j : ℕ} (v : A) → i ≢ j → get_elem? (set xs i v) j ≡ get_elem? xs j
  get_elem?-set_ne [] v h = refl
  get_elem?-set_ne (x ∷ xs) {i = zero} {j = zero} v h = absurd (h refl)
  get_elem?-set_ne (x ∷ xs) {i = zero} {j = suc j} v h = refl
  get_elem?-set_ne (x ∷ xs) {i = suc i} {j = zero} v h = refl
  get_elem?-set_ne (x ∷ xs) {i = suc i} {j = suc j} v h = get_elem?-set_ne xs v (λ e. h (ap suc e))

module _ {ℓ} {A : Type ℓ} where
  pub set-set : (xs : List A) (i : ℕ) (v w : A) → set (set xs i v) i w ≡ set xs i w
  set-set [] i v w = refl
  set-set (x ∷ xs) zero v w = refl
  set-set (x ∷ xs) (suc i) v w = ap (λ t. x ∷ t) (set-set xs i v w)

  pub set-get_elem? : (xs : List A) (i : ℕ) {v : A} → get_elem? xs i ≡ some v → set xs i v ≡ xs
  set-get_elem? [] i h = refl
  set-get_elem? (x ∷ xs) zero h = cc
  set-get_elem? (x ∷ xs) (suc i) h = ap (λ t. x ∷ t) (set-get_elem? xs i h)

  pub lt_of_get_elem? : (xs : List A) (i : ℕ) {v : A} → get_elem? xs i ≡ some v → i < length xs
  lt_of_get_elem? [] i h = cc
  lt_of_get_elem? (x ∷ xs) zero h = omega arith
  lt_of_get_elem? (x ∷ xs) (suc i) h = omega (arith, lt_of_get_elem? xs i h)

  pub get_elem?-length : (xs : List A) → get_elem? xs (length xs) ≡ none
  get_elem?-length [] = refl
  get_elem?-length (x ∷ xs) = get_elem?-length xs

-- What passes a test at every place.
abbrev pub all : (ℕ → Bool) → List ℕ → Bool
all test [] = true
all test (x ∷ s) = test x && all test s

pub All-test {κ} :
    (P : ℕ → Type κ) (test : ℕ → Bool)
    → ((x : ℕ) → test x ≡ true → P x)
    → (s : List ℕ) → all test s ≡ true
    → All P s
All-test P test h [] e = tt
All-test P test h (x ∷ s) e = (h x (ground arith), All-test P test h s (ground arith))

pub All-append {ℓ κ} :
    {A : Type ℓ} (P : A → Type κ) (xs ys : List A) → All P xs → All P ys → All P (xs ++ ys)
All-append P [] ys h k = k
All-append P (x ∷ xs) ys (p, h) k = (p, All-append P xs ys h k)

pub get_elem?-lt {ℓ} :
    {A : Type ℓ} (xs : List A) (i : ℕ) {a : A} → get_elem? xs i ≡ some a → i < length xs
get_elem?-lt [] i e = cc
get_elem?-lt (x ∷ xs) zero e = omega arith
get_elem?-lt (x ∷ xs) (suc i) e = omega (arith, get_elem?-lt xs i e)

pub get_elem?-some {ℓ} :
    {A : Type ℓ} (xs : List A) (i : ℕ) → i < length xs → (a : A) × (get_elem? xs i ≡ some a)
get_elem?-some [] i h = absurd (omega (arith, h))
get_elem?-some (x ∷ xs) zero h = (x, refl)
get_elem?-some (x ∷ xs) (suc i) h = get_elem?-some xs i (omega (arith, h))

module _ {ℓ} {A : Type ℓ} where
  pub get_elem?-append :
      (xs ys : List A) (i : ℕ) → i < length xs → get_elem? (xs ++ ys) i ≡ get_elem? xs i
  get_elem?-append [] ys i h = absurd (omega (arith, h))
  get_elem?-append (x ∷ xs) ys zero h = refl
  get_elem?-append (x ∷ xs) ys (suc i) h = get_elem?-append xs ys i (omega (arith, h))

  pub get_elem?-last : (xs : List A) (y : A) → get_elem? (xs ++ (y ∷ [])) (length xs) ≡ some y
  get_elem?-last [] y = refl
  get_elem?-last (x ∷ xs) y = get_elem?-last xs y

  pub get_elem?_ext : (xs ys : List A) → ((k : ℕ) → get_elem? xs k ≡ get_elem? ys k) → xs ≡ ys
  get_elem?_ext [] [] h = refl
  get_elem?_ext [] (y ∷ ys) h = let no = h 0 in cc
  get_elem?_ext (x ∷ xs) [] h = let no = h 0 in cc
  get_elem?_ext (x ∷ xs) (y ∷ ys) h =
      let head = h 0 in let tail = get_elem?_ext xs ys (λ k. h (suc k)) in cc

  pub length-take_all : (n : ℕ) (xs : List A) → n ≤ length xs → length (take n xs) ≡ n
  length-take_all zero xs h = refl
  length-take_all (suc n) [] h = absurd (omega (arith, h))
  length-take_all (suc n) (x ∷ xs) h = omega (arith, length-take_all n xs)

  pub take-append_within : (n : ℕ) (xs ys : List A) → n ≤ length xs → take n (xs ++ ys) ≡ take n xs
  take-append_within zero xs ys h = refl
  take-append_within (suc n) [] ys h = absurd (omega (arith, h))
  take-append_within (suc n) (x ∷ xs) ys h =
      ap (λ t. x ∷ t) (take-append_within n xs ys (omega (arith, h)))

  pub All-set {κ} :
      (P : A → Type κ) (xs : List A) (i : ℕ) (v : A) → All P xs → P v → All P (set xs i v)
  All-set P [] i v h p = tt
  All-set P (x ∷ xs) zero v (q, h) p = (p, h)
  All-set P (x ∷ xs) (suc i) v (q, h) p = (q, All-set P xs i v h p)

  pub All-get_elem? {κ} :
      (P : A → Type κ) (xs : List A) (i : ℕ) {a : A} → All P xs → get_elem? xs i ≡ some a → P a
  All-get_elem? P [] i h e = cc
  All-get_elem? P (x ∷ xs) zero (p, h) e = subst P (cc) p
  All-get_elem? P (x ∷ xs) (suc i) (p, h) e = All-get_elem? P xs i h e

pub length-map {ℓ κ} :
    {A : Type ℓ} {B : Type κ} (f : A → B) (xs : List A) → length (map f xs) ≡ length xs
length-map f [] = refl
length-map f (x ∷ xs) = ap suc (length-map f xs)
