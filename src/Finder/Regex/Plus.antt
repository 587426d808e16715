-- ===== src/Finder/Regex/Plus.antt =====
-- Patterns with a '+' at their end: is_valid_regex of HWs/HW1/main.c.
use cse344_coursework.Base.{
  ℕ, zero, suc, ◌+◌, ◌<◌, ◌≡◌, ◌≢◌, All, Bool, true, false, ◌&&◌, some, [], ◌∷◌, ◌++◌, Bytes,
  length, length-append, arith,
}
use cse344_coursework.Finder.Regex.{
  plus, is_char_equal, skip_equal, regex_loop, is_valid_regex, IsCString, zero-is_char_equal,
}

-- Every character equals the given one, but for the case.
pub all_equal : ℕ → Bytes → Bool
all_equal x [] = true
all_equal x (y ∷ s) = is_char_equal y x && all_equal x s

-- The letters of the pattern, then one character or more that equal its last.
pub letters_then_run : (letters : Bytes) → (last : ℕ) → (filen : Bytes) → Bool
letters_then_run [] c [] = false
letters_then_run [] c (x ∷ filen) = is_char_equal x c && all_equal x filen
letters_then_run (d ∷ letters) c [] = false
letters_then_run (d ∷ letters) c (x ∷ filen) = is_char_equal x d && letters_then_run letters c filen

plus-not_equal : (y : ℕ) → y ≢ plus → is_char_equal y plus ≡ false
unfolding is_char_equal
plus-not_equal y h = ground arith

regex_loop-run :
    (fuel : ℕ) (filen : Bytes) (prev r : ℕ)
    → IsCString filen
    → All (λ c. c ≢ plus) filen
    → prev ≢ 0
    → length filen + 1 < fuel
    → regex_loop fuel filen (plus ∷ []) prev r ≡ some (all_equal prev filen)
unfolding regex_loop skip_equal all_equal
regex_loop-run zero filen prev r hf hp nz lt = ground arith
regex_loop-run (suc zero) filen prev r hf hp nz lt = ground arith
regex_loop-run (suc (suc fuel)) [] prev r hf hp nz lt =
    ground (arith, plus-not_equal 0 (λ e. omega arith), zero-is_char_equal prev, nz)
regex_loop-run (suc (suc fuel)) (y ∷ filen) prev r (hy, hf) (py, hp) nz lt =
    let ih = regex_loop-run (suc fuel) filen prev (r + 1) hf hp nz (omega (arith, lt)) in
    ground (arith, ih, plus-not_equal y py, hy)

regex_loop-letters :
    (fuel : ℕ) (letters : Bytes) (c : ℕ) (filen : Bytes) (prev : ℕ)
    → IsCString filen
    → All (λ x. x ≢ plus) filen
    → All (λ x. x ≢ plus) letters
    → IsCString letters
    → c ≢ 0
    → c ≢ plus
    → length filen + length letters + 2 < fuel
    → regex_loop fuel filen (letters ++ (c ∷ plus ∷ [])) prev 0
      ≡ some (letters_then_run letters c filen)
unfolding regex_loop letters_then_run
regex_loop-letters zero letters c filen prev hf pf pl hl hc pc lt = ground arith
regex_loop-letters (suc fuel) [] c [] prev hf pf pl hl hc pc lt =
    ground (arith, zero-is_char_equal c, hc, pc)
regex_loop-letters (suc fuel) [] c (x ∷ filen) prev (hx, hf) (px, pf) pl hl hc pc lt =
    let run = regex_loop-run fuel filen x 0 hf pf hx (omega (arith, lt)) in ground (arith, run, pc)
regex_loop-letters (suc fuel) (d ∷ letters) c [] prev hf pf (pd, pl) (hd, hl) hc pc lt =
    ground (arith, zero-is_char_equal d, hd, pd)
regex_loop-letters (suc fuel) (d ∷ letters) c (x ∷ filen) prev (hx, hf) (px, pf) (pd, pl) (hd, hl)
      hc pc lt =
    let ih = regex_loop-letters fuel letters c filen x hf pf pl hl hc pc (omega (arith, lt)) in
    ground (arith, ih, pd)

-- For C strings: a pattern that ends in '+' and has no other matches exactly the names with its letters in front and
-- one character or more behind them that equal the pattern's last one, if the name has no '+' itself.
-- Case is not regarded; the run's characters are compared with its first one.
pub is_valid_regex-run :
    (letters : Bytes) (c : ℕ) (filen : Bytes) (junk : ℕ)
    → IsCString filen
    → All (λ x. x ≢ plus) filen
    → All (λ x. x ≢ plus) letters
    → IsCString letters
    → c ≢ 0
    → c ≢ plus
    → is_valid_regex filen (letters ++ (c ∷ plus ∷ [])) junk
      ≡ some (letters_then_run letters c filen)
unfolding is_valid_regex
is_valid_regex-run letters c filen junk hf pf pl hl hc pc =
    regex_loop-letters (length filen + length (letters ++ (c ∷ plus ∷ [])) + 1) letters c filen junk
      hf pf pl hl hc pc (omega (arith, length-append {0} letters (c ∷ plus ∷ [])))
