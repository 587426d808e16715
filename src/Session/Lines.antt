-- ===== src/Session/Lines.antt =====
-- The query file of Final/Client/main.c: what the client reads of its lines.
use cse344_coursework.Base.{
  ℕ, ◌+◌, ◌*◌, ◌-◌, ◌<◌, ◌≡◌, refl, ◌≢◌, ap, ◌∙◌, All, Bool, true, false, ℤ, pos, some, List, [],
  ◌∷◌, map, ◌++◌, ◌==◌, Bytes, length, append_assoc, length-append, arith,
}
use cse344_coursework.Options.{is_digit}
use cse344_coursework.Lines.{fgets_lines, fgets_lines-line}
use cse344_coursework.Session.{buffer_size}
use cse344_coursework.Session.Client.{
  is_space, skip_spaces, digits, number, scan_sign, up_to_newline, scan,
}

-- A line of the query file: a client's number in decimal digits, and a query.
pub record Entry : Type 0 where
  pub client : Bytes
  pub query : Bytes

unfoldable pub line_text : Entry → Bytes
line_text e = e.client ++ (b' ' ∷ (e.query ++ (b'\n' ∷ [])))

unfoldable pub file_text : List Entry → Bytes
unfolding line_text
file_text [] = []
file_text (e ∷ es) = line_text e ++ file_text es

-- The number that digits continue.
abbrev pub decimal : ℕ → Bytes → ℕ
decimal n [] = n
decimal n (d ∷ ds) = decimal (n * 10 + (d - b'0')) ds

abbrev pub begins_with_space : Bytes → Bool
begins_with_space [] = false
begins_with_space (x ∷ s) = is_space x

-- At least one digit; the query is one line that does not begin with a space; the line fits.
pub record IsEntry (e : Entry) : Type 0 where
  pub has_digit : e.client ≢ []
  pub all_digits : All (λ d. is_digit d ≡ true) e.client
  pub one_line : All (λ x. x ≢ b'\n') e.query
  pub no_space : begins_with_space e.query ≡ false
  pub fits : length (line_text e) < buffer_size

digits-decimal :
    (ds rest : Bytes) (n : ℕ)
    → All (λ d. is_digit d ≡ true) ds
    → digits n (ds ++ (b' ' ∷ rest)) ≡ (decimal n ds, b' ' ∷ rest)
unfolding digits
digits-decimal [] rest n h = refl
digits-decimal (d ∷ ds) rest n (h, hs) = rw h (digits-decimal ds rest (n * 10 + (d - b'0')) hs)

up_to_newline-line :
    (q rest : Bytes) → All (λ x. x ≢ b'\n') q → up_to_newline (q ++ (b'\n' ∷ rest)) ≡ q
unfolding up_to_newline
up_to_newline-line [] rest h = refl
up_to_newline-line (x ∷ q) rest (h, hs) = ground (arith, up_to_newline-line q rest hs)

skip_spaces-digit : (d : ℕ) (s : Bytes) → is_digit d ≡ true → skip_spaces (d ∷ s) ≡ d ∷ s
unfolding skip_spaces
skip_spaces-digit d s h = ground arith

scan_sign-digit :
    (d : ℕ) (ds rest : Bytes)
    → is_digit d ≡ true
    → All (λ d. is_digit d ≡ true) ds
    → scan_sign (d ∷ (ds ++ (b' ' ∷ rest))) ≡ some (pos (decimal 0 (d ∷ ds)), b' ' ∷ rest)
unfolding scan_sign number
scan_sign-digit d ds rest h hs =
    let minus : (d == 45) ≡ false = ground arith in
    let plus : (d == 43) ≡ false = ground arith in
    rw (minus, plus, h, digits-decimal ds rest (0 + (d - b'0')) hs)

query-of-line :
    (q : Bytes)
    → All (λ x. x ≢ b'\n') q
    → begins_with_space q ≡ false
    → up_to_newline (skip_spaces (b' ' ∷ (q ++ (b'\n' ∷ [])))) ≡ q
unfolding skip_spaces up_to_newline
query-of-line [] h n = refl
query-of-line (x ∷ q) h n = rw n (up_to_newline-line (x ∷ q) [] h)

scan-parts :
    (ds q : Bytes) (query_id : ℤ)
    → ds ≢ []
    → All (λ d. is_digit d ≡ true) ds
    → All (λ x. x ≢ b'\n') q
    → begins_with_space q ≡ false
    → scan query_id (ds ++ (b' ' ∷ (q ++ (b'\n' ∷ [])))) ≡ (pos (decimal 0 ds), q)
unfolding scan
scan-parts [] q query_id ne h l n = absurd (ne refl)
scan-parts (d ∷ ds) q query_id ne (h, hs) l n = rw (
  scan,
  skip_spaces-digit d (ds ++ (b' ' ∷ (q ++ (b'\n' ∷ [])))) h,
  scan_sign-digit d ds (q ++ (b'\n' ∷ [])) h hs,
  query-of-line q l n,
)

-- `sscanf` reads the client's number and the query from a line of the query file, whatever
-- `queryID` held before.
pub scan-line_text :
    (e : Entry) (query_id : ℤ)
    → IsEntry e
    → scan query_id (line_text e) ≡ (pos (decimal 0 e.client), e.query)
unfolding scan line_text
scan-line_text e query_id is =
    scan-parts e.client e.query query_id is.has_digit is.all_digits is.one_line is.no_space

fgets_lines-nil : fgets_lines buffer_size [] [] ≡ []
unfolding fgets_lines
fgets_lines-nil = refl

All-body :
    (ds q : Bytes)
    → All (λ d. is_digit d ≡ true) ds
    → All (λ x. x ≢ b'\n') q
    → All (λ x. x ≢ b'\n') (ds ++ (b' ' ∷ q))
All-body [] q h l = ((λ e. omega arith), l)
All-body (d ∷ ds) q (h, hs) l = (ground arith, All-body ds q hs l)

-- `fgets` reads the lines of the file one by one.
pub fgets_lines-file_text :
    (es : List Entry)
    → All IsEntry es
    → fgets_lines buffer_size (file_text es) [] ≡ map line_text es
unfolding file_text line_text
fgets_lines-file_text [] is = fgets_lines-nil
fgets_lines-file_text (e ∷ es) (is, iss) =
    let body = e.client ++ (b' ' ∷ e.query) in
    let text : line_text e ≡ body ++ (b'\n' ∷ []) = simp append_assoc in
    let fits : 0 + length body + 1 < buffer_size =
      omega (arith, is.fits, ap length text, length-append {0} body (b'\n' ∷ [])) in
    ap (λ t. fgets_lines buffer_size t [])
      (ap (λ t. t ++ file_text es) text ∙ append_assoc body (b'\n' ∷ []) (file_text es))
    ∙ fgets_lines-line buffer_size body (file_text es) []
        (All-body e.client e.query is.all_digits is.one_line) fits
    ∙ rw (text, fgets_lines-file_text es iss)
