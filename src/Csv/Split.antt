-- ===== src/Csv/Split.antt =====
-- `split` reads back the cells of a printed row.
use cse344_coursework.Base.{
  ℕ, ◌+◌, ◌≡◌, refl, ◌≢◌, ap, All, Bool, true, false, Option, none, some, List, [], ◌∷◌, ◌++◌, ◌⊎◌,
  Bytes, codes, length, arith, ◌∙◌,
}
use cse344_coursework.Tokens.{substr, keep_from}
use cse344_coursework.Csv.{comma, quote, cut, emit, csv_loop}

pub data Field : Type 0 where
  blank : Field
  bare : Bytes → Field
  quoted : Bytes → Field

unfoldable pub text : Field → Bytes
text blank = []
text (bare w) = w
text (quoted w) = quote ∷ (w ++ (quote ∷ []))

unfoldable pub row_text : List Field → Bytes
row_text [] = []
row_text (f ∷ []) = text f
row_text (f ∷ g ∷ fs) = text f ++ (comma ∷ row_text (g ∷ fs))

-- Empty cells are stored as "null", also where the emptiness is quoted.
unfoldable pub value : Field → Bytes
value blank = codes "null"
value (bare w) = w
value (quoted []) = codes "null"
value (quoted (x ∷ w)) = x ∷ w

abbrev pub IsPlain : ℕ → Type 0
IsPlain x = (x ≢ 0) × (x ≢ quote) × (x ≢ comma)

abbrev pub IsInner : ℕ → Type 0
IsInner x = (x ≢ 0) × (x ≢ quote)

abbrev pub IsField : Field → Type 0
IsField blank = Unit
IsField (bare w) = (w ≢ []) × All IsPlain w
IsField (quoted w) = All IsInner w

abbrev pub loop :
    Bytes → Bytes → ℕ → (od dq : Bool) → Option ℕ → ℕ → List Bytes → Option (List Bytes)
loop = csv_loop comma quote

-- A character inside a cell moves the loop on, quoted or not.
pub loop-inside :
    (save str : Bytes) (x i prev : ℕ) (od dq : Bool) (from : Option ℕ) (path : List Bytes)
    → x ≢ quote
    → (od ≡ true) ⊎ (x ≢ comma)
    → loop save (x ∷ str) i od dq from prev path
      ≡ loop save str (i + 1) od dq (keep_from from i) x path
unfolding csv_loop
loop-inside save str x i prev od dq from path h hc = ground arith

abbrev pub Inside : Bool → ℕ → Type 0
Inside od x = (x ≢ quote) × ((od ≡ true) ⊎ (x ≢ comma))

-- With `from` set, a run of such characters leaves it; `prev` is the last of them.
pub loop-run :
    (save w str : Bytes) (i f prev : ℕ) (od dq : Bool) (path : List Bytes)
    → All (Inside od) w
    → (pv : ℕ) × (loop save (w ++ str) i od dq (some f) prev path
        ≡ loop save str (i + length w) od dq (some f) pv path)
unfolding keep_from
loop-run save [] str i f prev od dq path h =
    (prev, ap (λ k. loop save str k od dq (some f) prev path) (omega arith))
loop-run save (x ∷ w) str i f prev od dq path ((hq, hc), hs) =
    let (pv, e) = loop-run save w str (i + 1) f x od dq path hs in
    (
      pv,
      loop-inside save (w ++ str) x i prev od dq (some f) path hq hc
          ∙ e
          ∙ ap (λ k. loop save str k od dq (some f) pv path) (omega arith),
    )

-- From a cell's first character to behind its last.
pub loop-cell :
    (save w str : Bytes) (i prev : ℕ) (od dq : Bool) (path : List Bytes)
    → w ≢ []
    → All (Inside od) w
    → (pv : ℕ) × (loop save (w ++ str) i od dq none prev path
        ≡ loop save str (i + length w) od dq (some i) pv path)
unfolding keep_from
loop-cell save [] str i prev od dq path ne h = absurd (ne refl)
loop-cell save (x ∷ w) str i prev od dq path ne ((hq, hc), hs) =
    let (pv, e) = loop-run save w str (i + 1) i x od dq path hs in
    (
      pv,
      loop-inside save (w ++ str) x i prev od dq none path hq hc
          ∙ e
          ∙ ap (λ k. loop save str k od dq (some i) pv path) (omega arith),
    )

-- The three places where `common` is set: a comma and the end outside quotes, and a quote.
pub loop-comma_open :
    (save str : Bytes) (i f prev : ℕ) (dq : Bool) (path : List Bytes) (t : Bytes)
    → substr save f i ≡ some t
    → loop save (comma ∷ str) i false dq (some f) prev path
      ≡ loop save str (i + 1) false false none comma (path ++ (t ∷ []))
unfolding csv_loop emit cut
loop-comma_open save str i f prev dq path t e = rw e

pub loop-end_open :
    (save : Bytes) (i f prev : ℕ) (od dq : Bool) (path : List Bytes) (t : Bytes)
    → substr save f i ≡ some t
    → loop save [] i od dq (some f) prev path ≡ some (path ++ (t ∷ []))
unfolding csv_loop emit cut
loop-end_open save i f prev od dq path t e = rw e

pub loop-comma_shut :
    (save str : Bytes) (i prev : ℕ) (path : List Bytes)
    → loop save (comma ∷ str) i false true none prev path
      ≡ loop save str (i + 1) false false none comma path
unfolding csv_loop emit cut
loop-comma_shut save str i prev path = ground arith

pub loop-quote_open :
    (save str : Bytes) (i prev : ℕ) (path : List Bytes)
    → prev ≢ quote
    → loop save (quote ∷ str) i false false none prev path
      ≡ loop save str (i + 1) true true none quote path
unfolding csv_loop emit cut
loop-quote_open save str i prev path h = ground arith

pub loop-quote_shut :
    (save str : Bytes) (i f prev : ℕ) (path : List Bytes) (t : Bytes)
    → substr save f i ≡ some t
    → loop save (quote ∷ str) i true true (some f) prev path
      ≡ loop save str (i + 1) false true none quote (path ++ (t ∷ []))
unfolding csv_loop emit cut
loop-quote_shut save str i f prev path t e = rw e

pub loop-comma_blank :
    (save str : Bytes) (i prev : ℕ) (path : List Bytes)
    → loop save (comma ∷ str) i false false none prev path
      ≡ loop save str (i + 1) false false none comma (path ++ (codes "null" ∷ []))
unfolding csv_loop emit cut
loop-comma_blank save str i prev path = refl

pub loop-quote_empty :
    (save str : Bytes) (i : ℕ) (path : List Bytes)
    → loop save (quote ∷ str) i true true none quote path
      ≡ loop save str (i + 1) false true none quote (path ++ (codes "null" ∷ []))
unfolding csv_loop emit cut
loop-quote_empty save str i path = refl

pub loop-end_blank :
    (save : Bytes) (i prev : ℕ) (path : List Bytes)
    → prev ≡ comma
    → loop save [] i false false none prev path ≡ some (path ++ (codes "null" ∷ []))
unfolding csv_loop emit cut
loop-end_blank save i prev path e = rw e

pub loop-end_shut :
    (save : Bytes) (i : ℕ) (path : List Bytes)
    → loop save [] i false true none quote path ≡ some path
unfolding csv_loop emit cut
loop-end_shut save i path = refl
