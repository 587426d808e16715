-- ===== src/Finder/Regex.antt =====
-- Matching a file name: is_char_equal and is_valid_regex of HWs/HW1/main.c.
use cse344_coursework.Base.{
  ℕ, zero, suc, ◌+◌, ◌-◌, ◌≤◌, ◌<◌, ◌≡◌, refl, ◌≢◌, All, Bool, true, false, ◌&&◌, Option, none,
  some, [], ◌∷◌, ltb, leb, ◌==◌, if◌then◌else◌, Bytes, length, arith,
}
pub mod Plus

abbrev pub plus : ℕ
plus = b'+'

-- Letters are compared without their case.
pub is_char_equal : ℕ → ℕ → Bool
is_char_equal c1 c2 =
    if c1 == c2 + 32 && (leb b'a' c1 && leb c1 b'z')
    then true
    else if c2 == c1 + 32 && (leb b'a' c2 && leb c2 b'z')
    then true
    else c1 == c2

-- `*s`
abbrev head : Bytes → ℕ
head [] = 0
head (x ∷ s) = x

abbrev tail : Bytes → Bytes
tail [] = []
tail (x ∷ s) = s

-- The inner loop: what is left of the pattern, and how often `--r` is done.
pub skip_equal : (prev : ℕ) → Bytes → Bytes × ℕ
skip_equal prev [] = ([], 0)
skip_equal prev (c ∷ fregex) =
    if is_char_equal c prev
    then ((skip_equal prev fregex).0, (skip_equal prev fregex).1 + 1)
    else (c ∷ fregex, 0)

-- The loop, on fuel; `none` is out of fuel. `r` is not negative at the loop's head, since the loop
-- returns when it becomes so.
pub regex_loop : ℕ → (filen fregex : Bytes) → (prev r : ℕ) → Option Bool
regex_loop zero filen fregex prev r = none
regex_loop (suc fuel) filen [] prev r = some (if head filen == 0 then true else false)
regex_loop (suc fuel) filen (c ∷ fregex) prev r =
    let same = regex_loop fuel (tail filen) fregex (head filen) 0 in
    let more = regex_loop fuel (tail filen) (c ∷ fregex) prev (r + 1) in
    let skipped = skip_equal prev fregex in
    let behind = regex_loop fuel filen skipped.0 prev (r - skipped.1) in
    if is_char_equal (head filen) c
    then same
    else if c == plus && is_char_equal (head filen) prev
    then more
    else if c == plus
    then (if ltb r skipped.1 then some false else behind)
    else some false

-- `is_valid_regex(filen, fregex)`; `junk` is what the uninitialised `prev` holds.
unfoldable pub is_valid_regex : (filen fregex : Bytes) → (junk : ℕ) → Option Bool
unfolding regex_loop skip_equal is_char_equal
is_valid_regex filen fregex junk = regex_loop (length filen + length fregex + 1) filen fregex junk 0

length-skip_equal : (prev : ℕ) (s : Bytes) → length (skip_equal prev s).0 ≤ length s
unfolding skip_equal
length-skip_equal prev [] = omega arith
length-skip_equal prev (c ∷ s) = ground (arith, length-skip_equal prev s)

-- A C string holds no NUL.
abbrev pub IsCString : Bytes → Type 0
IsCString = All (λ c. c ≢ 0)

if-IsCString :
    (b : Bool) (p q : Bytes × ℕ)
    → IsCString p.0
    → IsCString q.0
    → (λ (r : Bytes × ℕ). IsCString r.0) (if b then p else q)
if-IsCString true p q hp hq = hp
if-IsCString false p q hp hq = hq

skip_equal-IsCString : (prev : ℕ) (s : Bytes) → IsCString s → IsCString (skip_equal prev s).0
unfolding skip_equal
skip_equal-IsCString prev [] h = h
skip_equal-IsCString prev (c ∷ s) (h, hs) =
    if-IsCString (is_char_equal c prev) _ _ (skip_equal-IsCString prev s hs) (h, hs)

tail-IsCString : (s : Bytes) → IsCString s → IsCString (tail s)
tail-IsCString [] h = h
tail-IsCString (c ∷ s) (h, hs) = hs

pub zero-is_char_equal : (c : ℕ) → is_char_equal 0 c ≡ true → c ≡ 0
unfolding is_char_equal
zero-is_char_equal c h = ground arith

-- A character that equals the file name's next one is not its end.
head-nonzero :
    (filen : Bytes) (c : ℕ)
    → IsCString filen
    → c ≢ 0
    → is_char_equal (head filen) c ≡ true
    → head filen ≢ 0
head-nonzero [] c h nz e = ground (arith, zero-is_char_equal c e, nz)
head-nonzero (x ∷ filen) c (h, hs) nz e = h

length-tail : (s : Bytes) → head s ≢ 0 → length (tail s) + 1 ≡ length s
length-tail [] h = ground arith
length-tail (x ∷ s) h = omega arith

Ends : Option Bool → Type 0
Ends o = (b : Bool) × (o ≡ some b)

if-Ends :
    (b : Bool) (x y : Option Bool)
    → (b ≡ true → Ends x)
    → (b ≡ false → Ends y)
    → Ends (if b then x else y)
if-Ends true x y f g = f refl
if-Ends false x y f g = g refl

and_right : (a b : Bool) → (a && b) ≡ true → b ≡ true
and_right true b h = h
and_right false b h = cc

regex_loop-Ends :
    (fuel : ℕ) (filen fregex : Bytes) (prev r : ℕ)
    → IsCString filen
    → IsCString fregex
    → prev ≢ 0
    → length filen + length fregex < fuel
    → Ends (regex_loop fuel filen fregex prev r)
unfolding regex_loop Ends
regex_loop-Ends zero filen fregex prev r hf hr hp lt = ground arith
regex_loop-Ends (suc fuel) filen [] prev r hf hr hp lt = (_, refl)
regex_loop-Ends (suc fuel) filen (c ∷ fregex) prev r hf (hc, hr) hp lt =
    if-Ends (is_char_equal (head filen) c) _ _
      (λ e.
        let nz = head-nonzero filen c hf hc e in
        let short = length-tail filen nz in
        regex_loop-Ends fuel (tail filen) fregex (head filen) 0 (tail-IsCString filen hf) hr nz
          (omega (arith, short, lt)))
      (λ _.
        if-Ends (c == plus && is_char_equal (head filen) prev) _ _
          (λ e.
            let short =
              length-tail filen (head-nonzero filen prev hf hp (and_right (c == plus) _ e)) in
            regex_loop-Ends fuel (tail filen) (c ∷ fregex) prev (r + 1) (tail-IsCString filen hf)
              (hc, hr) hp (omega (arith, short, lt)))
          (λ _.
            if-Ends (c == plus) _ _
              (λ _.
                if-Ends (ltb r (skip_equal prev fregex).1) _ _ (λ _. (false, refl))
                  (λ _.
                    regex_loop-Ends fuel filen (skip_equal prev fregex).0 prev
                      (r - (skip_equal prev fregex).1) hf (skip_equal-IsCString prev fregex hr) hp
                      (omega (arith, length-skip_equal prev fregex, lt))))
              (λ _. (false, refl))))

-- Matching ends, with an answer, for every file name and every pattern that are C strings, if the
-- uninitialised `prev` does not happen to be NUL.
pub is_valid_regex-Ends :
    (filen fregex : Bytes) (junk : ℕ)
    → IsCString filen
    → IsCString fregex
    → junk ≢ 0
    → (b : Bool) × (is_valid_regex filen fregex junk ≡ some b)
unfolding is_valid_regex Ends
is_valid_regex-Ends filen fregex junk hf hr hj =
    regex_loop-Ends (length filen + length fregex + 1) filen fregex junk 0 hf hr hj (omega arith)

-- The same letters in the same order, whatever their case.
pub same_letters : Bytes → Bytes → Bool
same_letters [] [] = true
same_letters [] (c ∷ s) = false
same_letters (x ∷ filen) [] = false
same_letters (x ∷ filen) (c ∷ s) = is_char_equal x c && same_letters filen s

regex_loop-literal :
    (fuel : ℕ) (filen fregex : Bytes) (prev : ℕ)
    → IsCString filen
    → IsCString fregex
    → All (λ c. c ≢ plus) fregex
    → length filen + length fregex < fuel
    → regex_loop fuel filen fregex prev 0 ≡ some (same_letters filen fregex)
unfolding regex_loop same_letters
regex_loop-literal zero filen fregex prev hf hr hp lt = ground arith
regex_loop-literal (suc fuel) [] [] prev hf hr hp lt = refl
regex_loop-literal (suc fuel) (x ∷ filen) [] prev (hx, hf) hr hp lt = ground (arith, hx)
regex_loop-literal (suc fuel) [] (c ∷ fregex) prev hf (hc, hr) (hp, hps) lt =
    let apart = zero-is_char_equal c in ground (arith, apart, hc, hp)
regex_loop-literal (suc fuel) (x ∷ filen) (c ∷ fregex) prev (hx, hf) (hc, hr) (hp, hps) lt =
    let ih = regex_loop-literal fuel filen fregex x hf hr hps (omega (arith, lt)) in
    ground (arith, ih, hp)

-- A pattern without '+' matches exactly the names with the same letters in the same order, whatever
-- their case and whatever the uninitialised `prev` holds.
pub is_valid_regex-literal :
    (filen fregex : Bytes) (junk : ℕ)
    → IsCString filen
    → IsCString fregex
    → All (λ c. c ≢ plus) fregex
    → is_valid_regex filen fregex junk ≡ some (same_letters filen fregex)
unfolding is_valid_regex
is_valid_regex-literal filen fregex junk hf hr hp =
    regex_loop-literal (length filen + length fregex + 1) filen fregex junk hf hr hp (omega arith)
