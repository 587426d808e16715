-- ===== src/Query/Select.antt =====
-- SELECT prints the marked columns of every row, and its buffer is always exactly large enough.
use cse344_coursework.Base.{
  ℕ, suc, ◌+◌, ◌≤◌, ◌≡◌, refl, ◌≢◌, ap, ◌∙◌, sym, All, Bool, true, ◌||◌, some, List, [], ◌∷◌, ◌++◌,
  if◌then◌else◌, Bool-cases, inl, inr, ◌>>=◌, Bytes, codes, length, length-append, append_assoc,
  append-nil, arith,
}
use cse344_coursework.Query.{
  Row, Table, Buffer, null, holds, strcat, put_cell, put_newline, print_cells, print_rows, seal,
}

-- A text with the room that it needs: a null pointer as long as there is none.
unfoldable pub buf : Bytes → Buffer
buf [] = null
buf (x ∷ t) = holds (suc (length t) + 1) (x ∷ t)

pub buf-holds : (t : Bytes) → t ≢ [] → buf t ≡ holds (length t + 1) t
unfolding buf
buf-holds [] ne = absurd (ne refl)
buf-holds (x ∷ t) ne = refl

append_one-ne-nil : (t : Bytes) (x : ℕ) → t ++ (x ∷ []) ≢ []
append_one-ne-nil [] x e = cc
append_one-ne-nil (y ∷ t) x e = cc

strcat-fits :
    (room : ℕ) (t s : Bytes)
    → room ≡ length t + length s + 1
    → strcat room t s ≡ some (holds (length (t ++ s) + 1) (t ++ s))
unfolding strcat
strcat-fits room t s h =
    let e : room ≡ length (t ++ s) + 1 = omega (arith, length-append {0} t s) in ground (arith, e)

append-ne-nil : (t s : Bytes) → s ≢ [] → t ++ s ≢ []
append-ne-nil [] s h = h
append-ne-nil (x ∷ t) s h = λ e. cc

pub put_cell-buf : (cell t : Bytes) → put_cell cell (buf t) ≡ some (buf (t ++ (cell ++ codes " ")))
unfolding put_cell buf
put_cell-buf cell [] =
    strcat-fits (length cell + 2) [] (cell ++ codes " ")
      (omega (arith, length-append {0} cell (codes " ")))
    ∙ ap some (sym (buf-holds (cell ++ codes " ") (append_one-ne-nil cell b' ')))
put_cell-buf cell (x ∷ t) =
    strcat-fits (suc (length t) + 1 + (length cell + 1)) (x ∷ t) (cell ++ codes " ")
      (omega (arith, length-append {0} cell (codes " ")))

pub put_newline-buf : (t : Bytes) → t ≢ [] → put_newline (buf t) ≡ some (buf (t ++ codes "\n"))
unfolding put_newline buf
put_newline-buf [] ne = absurd (ne refl)
put_newline-buf (x ∷ t) ne = strcat-fits (suc (length t) + 1 + 1) (x ∷ t) (codes "\n") (omega arith)

-- The marked cells of a row, a blank behind each.
unfoldable pub picked : List Bool → Row → Bytes
picked [] row = []
picked (mark ∷ header) [] = []
picked (mark ∷ header) (cell ∷ row) = (if mark then cell ++ codes " " else []) ++ picked header row

-- The printed rows, a newline behind each.
unfoldable pub render : List Bool → Table → Bytes
render header [] = []
render header (row ∷ rows) = picked header row ++ (codes "\n" ++ render header rows)

abbrev pub or_star : Bool → List Bool → List Bool
or_star star [] = []
or_star star (mark ∷ header) = (mark || star) ∷ or_star star header

print_cells-picked :
    (header : List Bool) (star : Bool) (row : Row) (t : Bytes)
    → length header ≡ length row
    → print_cells (some header) star row (buf t)
      ≡ some (buf (t ++ picked (or_star star header) row))
unfolding print_cells picked
print_cells-picked [] star [] t h = ap (λ x. some (buf x)) (sym (append-nil t))
print_cells-picked [] star (cell ∷ row) t h = absurd (omega arith)
print_cells-picked (mark ∷ header) star [] t h = absurd (omega arith)
print_cells-picked (mark ∷ header) star (cell ∷ row) t h = elim (Bool-cases (mark || star)) [
  | inl m ↦
      rw (m, put_cell-buf cell t)
        (print_cells-picked header star row (t ++ (cell ++ codes " ")) (omega arith)
          ∙ ap (λ x. some (buf x))
              (append_assoc t (cell ++ codes " ") (picked (or_star star header) row)))
  | inr m ↦ rw m (print_cells-picked header star row t (omega arith))
]

abbrev pub Fits : List Bool → Row → Type 0
Fits header row = (length header ≡ length row) × (picked header row ≢ [])

length-or_star : (star : Bool) (header : List Bool) → length (or_star star header) ≡ length header
length-or_star star [] = refl
length-or_star star (mark ∷ header) = ap suc (length-or_star star header)

print_rows-render :
    (header : List Bool) (p star : Bool) (rows : Table) (t : Bytes)
    → (p || star) ≡ true
    → All (Fits (or_star star header)) rows
    → print_rows (some header) p star rows (buf t)
      ≡ some (buf (t ++ render (or_star star header) rows))
unfolding print_rows render
print_rows-render header p star [] t on h = ap (λ x. some (buf x)) (sym (append-nil t))
print_rows-render header p star (row ∷ rows) t on ((len, ne), hs) =
    let line = t ++ picked (or_star star header) row in
    let len' : length header ≡ length row = omega (arith, length-or_star star header) in
    rw
      (
        print_cells-picked header star row t len',
        on,
        put_newline-buf line (append-ne-nil t (picked (or_star star header) row) ne),
      )
      (print_rows-render header p star rows (line ++ codes "\n") on hs
        ∙ ap (λ x. some (buf x)) (simp append_assoc))

strcat-room :
    (room : ℕ) (t s : Bytes)
    → length t + length s + 1 ≤ room
    → strcat room t s ≡ some (holds room (t ++ s))
unfolding strcat
strcat-room room t s h = ground arith

pub seal-buf : (t : Bytes) → t ≢ [] → seal (buf t) ≡ some t
unfolding seal
seal-buf t ne = rw (buf-holds t ne) (rw (strcat-room (length t + 1 + 1) t [] (omega arith)))

render-ne-nil : (header : List Bool) (row : Row) (rows : Table) → render header (row ∷ rows) ≢ []
unfolding render
render-ne-nil header row rows =
    append-ne-nil (picked header row) (codes "\n" ++ render header rows) (λ e. cc)

-- The printing part of SELECT: with `p` set or a star, and rows that each show something, the answer
-- is every row's marked cells with a newline behind, and no `strcat` overruns the buffer.
pub print_rows-seal :
    (header : List Bool) (p star : Bool) (row : Row) (rows : Table)
    → (p || star) ≡ true
    → All (Fits (or_star star header)) (row ∷ rows)
    → (print_rows (some header) p star (row ∷ rows) null >>= seal)
      ≡ some (render (or_star star header) (row ∷ rows))
unfolding buf
print_rows-seal header p star row rows on h =
    rw (print_rows-render header p star (row ∷ rows) [] on h) (
      seal-buf (render (or_star star header) (row ∷ rows))
        (render-ne-nil (or_star star header) row rows))
