-- ===== src/Lines.antt =====
-- The lines of a file: fgets; and their number: get_fifos_number of HWs/HW3/main.c and calculate_line_number of
-- HWs/HW4/main.c, the same loop twice.
pub mod Texts
use cse344_coursework.Base.{
  ◌<◌, ◌-◌, ◌||◌, length-append, append_assoc, ℕ, ◌+◌, ◌≡◌, refl, ◌≢◌, All, Bool, true, false, not,
  ◌&&◌, List, [], ◌∷◌, ◌++◌, ◌==◌, if◌then◌else◌, Bool-cases, Bytes, length, arith, ◌∙◌, ap, inl,
  inr,
}
use cse344_coursework.Tokens.Runs.{runs, close}

abbrev pub newline : ℕ
newline = 10

-- `fgets(line, size, fptr)` until the file ends: a line keeps its newline, and one that does not fit
-- is cut behind `size - 1` characters. `line` is what has been read of it.
unfoldable pub fgets_lines : (size : ℕ) → (file line : Bytes) → List Bytes
fgets_lines size [] [] = []
fgets_lines size [] (y ∷ line) = (y ∷ line) ∷ []
fgets_lines size (x ∷ file) line =
    let line' = line ++ (x ∷ []) in
    let next = line' ∷ fgets_lines size file [] in
    let more = fgets_lines size file line' in
    if (x == b'\n') || (length line' == size - 1) then next else more

pub fgets_lines-line :
    (size : ℕ) (body rest line : Bytes)
    → All (λ x. x ≢ b'\n') body
    → length line + length body + 1 < size
    → fgets_lines size (body ++ (b'\n' ∷ rest)) line
      ≡ (line ++ (body ++ (b'\n' ∷ []))) ∷ fgets_lines size rest []
unfolding fgets_lines
fgets_lines-line size [] rest line h fits = refl
fgets_lines-line size (x ∷ body) rest line (h, hs) fits =
    let short : length (line ++ (x ∷ [])) ≢ size - 1 =
      omega (arith, length-append {0} line (x ∷ [])) in
    let e1 : ((x == 10) || (length (line ++ (x ∷ [])) == size - 1)) ≡ false = ground arith in
    rw e1 (
      fgets_lines-line size body rest (line ++ (x ∷ [])) hs
        (omega (arith, length-append {0} line (x ∷ [])))
      ∙ ap (λ l. l ∷ fgets_lines size rest []) (append_assoc line (x ∷ []) (body ++ (10 ∷ []))))

-- `EOF` stored in a `char`: the byte 255 compares equal to it.
abbrev pub eof : ℕ
eof = 255

abbrev at_eof : Bytes → Bool
at_eof [] = true
at_eof (y ∷ rest) = y == eof

-- `while (c != EOF)`; a newline behind a newline takes one off and puts one back.
line_loop : Bytes → (prev count : ℕ) → ℕ
line_loop [] prev count = count
line_loop (x ∷ rest) prev count =
    let count' = if x == newline then (if prev == x then count else count + 1) else count in
    let more =
      line_loop rest x (if not (x == newline) && at_eof rest then count' + 1 else count') in
    if x == eof then count else more

-- `junk` is what the uninitialised `prev` holds.
pub get_fifos_number : Bytes → (junk : ℕ) → ℕ
unfolding line_loop
get_fifos_number file junk = line_loop file junk 0

unfoldable pub calculate_line_number : Bytes → (junk : ℕ) → ℕ
unfolding line_loop
calculate_line_number file junk = line_loop file junk 0

-- The words that are left, where `begun` says that one has begun.
abbrev words_left : Bool → Bytes → ℕ
words_left begun [] = if begun then 1 else 0
words_left begun (x ∷ str) =
    if x == newline then (if begun then 1 else 0) + words_left false str else words_left true str

abbrev is_open : Bytes → Bool
is_open [] = false
is_open (x ∷ cur) = true

length-close :
    (cur : Bytes) (ws : List Bytes)
    → length (close cur ws) ≡ (if is_open cur then 1 else 0) + length ws
length-close [] ws = omega arith
length-close (x ∷ cur) ws = omega arith

is_open-append : (x : ℕ) (cur : Bytes) → is_open (cur ++ (x ∷ [])) ≡ true
is_open-append x [] = refl
is_open-append x (y ∷ cur) = refl

length-runs :
    (cur str : Bytes) → length (runs (λ x. x == newline) cur str) ≡ words_left (is_open cur) str
unfolding runs
length-runs [] [] = refl
length-runs (y ∷ cur) [] = refl
length-runs cur (x ∷ str) = elim (Bool-cases (x == newline)) [
  | inl d ↦
      rw d (length-close cur _ ∙ ap (λ n. (if is_open cur then 1 else 0) + n) (length-runs [] str))
  | inr n ↦ rw n (length-runs (cur ++ (x ∷ [])) str ∙ rw is_open-append)
]

line_loop-words_left :
    (x : ℕ) (rest : Bytes) (prev count : ℕ)
    → All (λ y. y ≢ eof) (x ∷ rest)
    → line_loop (x ∷ rest) prev count ≡ count + words_left (not (prev == newline)) (x ∷ rest)
unfolding line_loop
line_loop-words_left x [] prev count (h, hs) = ground arith
line_loop-words_left x (y ∷ rest) prev count (h, (hy, hs)) = ground (
  arith,
  line_loop-words_left y rest x count (hy, hs),
  line_loop-words_left y rest x (count + 1) (hy, hs),
)

words_left-head :
    (begun begun' : Bool) (x : ℕ) (rest : Bytes)
    → x ≢ newline
    → words_left begun (x ∷ rest) ≡ words_left begun' (x ∷ rest)
words_left-head begun begun' x rest h = ground arith

line_loop-runs :
    (x : ℕ) (rest : Bytes) (junk : ℕ)
    → x ≢ newline
    → All (λ y. y ≢ eof) (x ∷ rest)
    → line_loop (x ∷ rest) junk 0 ≡ length (runs (λ y. y == newline) [] (x ∷ rest))
line_loop-runs x rest junk hx h =
    line_loop-words_left x rest junk 0 h
    ∙ ap (λ n. 0 + n) (words_left-head (not (junk == newline)) false x rest hx)
    ∙ omega (arith, length-runs [] (x ∷ rest))

-- On a file that does not begin with a newline and holds no byte 255, the count is the number of
-- lines that are not empty, whether or not the last one ends in a newline, and whatever `prev` held.
pub get_fifos_number-runs :
    (x : ℕ) (rest : Bytes) (junk : ℕ)
    → x ≢ newline
    → All (λ y. y ≢ eof) (x ∷ rest)
    → get_fifos_number (x ∷ rest) junk ≡ length (runs (λ y. y == newline) [] (x ∷ rest))
unfolding get_fifos_number
get_fifos_number-runs x rest junk hx h = line_loop-runs x rest junk hx h

-- calculate_line_number gives the same number.
pub calculate_line_number-runs :
    (x : ℕ) (rest : Bytes) (junk : ℕ)
    → x ≢ newline
    → All (λ y. y ≢ eof) (x ∷ rest)
    → calculate_line_number (x ∷ rest) junk ≡ length (runs (λ y. y == newline) [] (x ∷ rest))
unfolding calculate_line_number
calculate_line_number-runs x rest junk hx h = line_loop-runs x rest junk hx h
