-- ===== src/Csv/RoundTrip.antt =====
-- `split` reads back the cells of a printed row, whatever they hold.
use cse344_coursework.Base.{
  ℕ, ◌+◌, ◌≡◌, refl, ◌≢◌, ap, All, true, false, none, some, List, [], ◌∷◌, ◌++◌, inl, inr, Bytes,
  codes, length, length-append, append_assoc, append-nil, arith, ◌∙◌, sym,
}
use cse344_coursework.Tokens.{substr}
use cse344_coursework.Tokens.Runs.{substr-run}
use cse344_coursework.Csv.{comma, quote, split}
use cse344_coursework.Csv.Split.{
  Field, blank, bare, quoted, text, row_text, value, IsPlain, IsInner, IsField, loop, Inside,
  loop-cell, loop-comma_open, loop-end_open, loop-comma_shut, loop-quote_open, loop-quote_shut,
  loop-comma_blank, loop-quote_empty, loop-end_blank, loop-end_shut,
}

All-IsPlain : (w : Bytes) → All IsPlain w → All (Inside false) w × All (λ x. x ≢ 0) w
All-IsPlain [] h = (tt, tt)
All-IsPlain (x ∷ w) ((h0, hq, hc), hs) =
    let (a, b) = All-IsPlain w hs in (((hq, inr hc), a), (h0, b))

All-IsInner : (w : Bytes) → All IsInner w → All (Inside true) w × All (λ x. x ≢ 0) w
All-IsInner [] h = (tt, tt)
All-IsInner (x ∷ w) ((h0, hq), hs) = let (a, b) = All-IsInner w hs in (((hq, inl refl), a), (h0, b))

loop-bare :
    (save p w rest : Bytes) (i prev : ℕ) (path : List Bytes)
    → save ≡ p ++ (w ++ rest)
    → i ≡ length p
    → w ≢ []
    → All IsPlain w
    → (pv : ℕ) × (loop save (w ++ rest) i false false none prev path
        ≡ loop save rest (i + length w) false false (some i) pv path)
      × (substr save i (i + length w) ≡ some w)
loop-bare save p w rest i prev path e ei ne h =
    let (inside, text_only) = All-IsPlain w h in
    let (pv, run) = loop-cell save w rest i prev false false path ne inside in
    (pv, run, rw (e, ei) (substr-run p w rest text_only))

loop-quoted :
    (save p w rest : Bytes) (i prev : ℕ) (path : List Bytes)
    → save ≡ p ++ (quote ∷ (w ++ (quote ∷ rest)))
    → i ≡ length p
    → prev ≢ quote
    → All IsInner w
    → loop save (quote ∷ (w ++ (quote ∷ rest))) i false false none prev path
      ≡ loop save rest
          (i + 1 + length w + 1)
          false
          true
          none
          quote
          (path ++ (value (quoted w) ∷ []))
unfolding value
loop-quoted save p [] rest i prev path e ei ne h =
    loop-quote_open save (quote ∷ rest) i prev path ne
    ∙ loop-quote_empty save rest (i + 1) path
    ∙ ap (λ k. loop save rest k false true none quote (path ++ (codes "null" ∷ []))) (omega arith)
loop-quoted save p (x ∷ w) rest i prev path e ei ne h =
    let (inside, text_only) = All-IsInner (x ∷ w) h in
    let (pv, run) =
      loop-cell save (x ∷ w) (quote ∷ rest) (i + 1) quote true true path (λ n. cc) inside in
    let here : i + 1 ≡ length (p ++ (quote ∷ [])) = omega (arith, length-append p (quote ∷ [])) in
    let save_eq : save ≡ (p ++ (quote ∷ [])) ++ ((x ∷ w) ++ (quote ∷ rest)) =
      e ∙ simp append_assoc in
    let got : substr save (i + 1) (i + 1 + length (x ∷ w)) ≡ some (x ∷ w) =
      rw (save_eq, here) (substr-run (p ++ (quote ∷ [])) (x ∷ w) (quote ∷ rest) text_only) in
    loop-quote_open save ((x ∷ w) ++ (quote ∷ rest)) i prev path ne
    ∙ run
    ∙ loop-quote_shut save rest (i + 1 + length (x ∷ w)) (i + 1) pv path (x ∷ w) got

-- A cell with a comma behind it adds its value, and the loop is at the start of a cell again.
loop-field :
    (f : Field) (save p rest : Bytes) (i prev : ℕ) (path : List Bytes)
    → save ≡ p ++ (text f ++ (comma ∷ rest))
    → i ≡ length p
    → prev ≢ quote
    → IsField f
    → loop save (text f ++ (comma ∷ rest)) i false false none prev path
      ≡ loop save rest (i + length (text f) + 1) false false none comma (path ++ (value f ∷ []))
unfolding text value
loop-field blank save p rest i prev path e ei ne h =
    loop-comma_blank save rest i prev path
    ∙ ap (λ k. loop save rest k false false none comma (path ++ (codes "null" ∷ []))) (omega arith)
loop-field (bare w) save p rest i prev path e ei ne (hne, h) =
    let (pv, run, got) = loop-bare save p w (comma ∷ rest) i prev path e ei hne h in
    run ∙ loop-comma_open save rest (i + length w) i pv false path w got
loop-field (quoted w) save p rest i prev path e ei ne h =
    let shape : text (quoted w) ++ (comma ∷ rest) ≡ quote ∷ (w ++ (quote ∷ comma ∷ rest)) =
      ap (λ t. quote ∷ t) (append_assoc w (quote ∷ []) (comma ∷ rest)) in
    ap (λ t. loop save t i false false none prev path) shape
    ∙ loop-quoted save p w (comma ∷ rest) i prev path (e ∙ ap (λ t. p ++ t) shape) ei ne h
    ∙ loop-comma_shut save rest (i + 1 + length w + 1) quote (path ++ (value (quoted w) ∷ []))
    ∙ ap (λ k. loop save rest k false false none comma (path ++ (value (quoted w) ∷ [])))
        (omega (arith, length-append w (quote ∷ [])))

-- The last cell of a row; it is empty only behind a comma.
loop-last :
    (f : Field) (save p : Bytes) (i prev : ℕ) (path : List Bytes)
    → save ≡ p ++ text f
    → i ≡ length p
    → prev ≢ quote
    → (text f ≡ [] → prev ≡ comma)
    → IsField f
    → loop save (text f) i false false none prev path ≡ some (path ++ (value f ∷ []))
unfolding text value
loop-last blank save p i prev path e ei ne behind h = loop-end_blank save i prev path (behind refl)
loop-last (bare w) save p i prev path e ei ne behind (hne, h) =
    let (pv, run, got) =
      loop-bare save p w [] i prev path (e ∙ ap (λ t. p ++ t) (sym (append-nil w))) ei hne h in
    ap (λ t. loop save t i false false none prev path) (sym (append-nil w))
    ∙ run
    ∙ loop-end_open save (i + length w) i pv false false path w got
loop-last (quoted w) save p i prev path e ei ne behind h =
    loop-quoted save p w [] i prev path e ei ne h
    ∙ loop-end_shut save (i + 1 + length w + 1) (path ++ (value (quoted w) ∷ []))

unfoldable pub values : List Field → List Bytes
values [] = []
values (f ∷ fs) = value f ∷ values fs

loop-row :
    (f : Field) (fs : List Field) (save p : Bytes) (i prev : ℕ) (path : List Bytes)
    → save ≡ p ++ row_text (f ∷ fs)
    → i ≡ length p
    → prev ≢ quote
    → (row_text (f ∷ fs) ≡ [] → prev ≡ comma)
    → All IsField (f ∷ fs)
    → loop save (row_text (f ∷ fs)) i false false none prev path ≡ some (path ++ values (f ∷ fs))
unfolding row_text values
loop-row f [] save p i prev path e ei ne behind (h, _) =
    loop-last f save p i prev path e ei ne behind h
loop-row f (g ∷ fs) save p i prev path e ei ne behind (h, hs) =
    loop-field f save p (row_text (g ∷ fs)) i prev path e ei ne h
    ∙ loop-row g fs save (p ++ (text f ++ (comma ∷ []))) (i + length (text f) + 1) comma
        (path ++ (value f ∷ [])) (e ∙ simp append_assoc)
        (omega
          (arith, length-append p (text f ++ (comma ∷ [])), length-append (text f) (comma ∷ [])))
        (ground arith) (λ x. refl) hs
    ∙ ap some (simp append_assoc)

-- `split` with the comma and the quote returns the values of the cells of any printed row, in order
-- and without a fault: bare and quoted cells give their text, commas and newlines in quotes
-- included, and empty cells give "null". The row is not the empty text, and the uninitialised `prev`
-- does not hold a quote.
pub split-row_text :
    (f : Field) (fs : List Field) (junk : ℕ)
    → All IsField (f ∷ fs)
    → row_text (f ∷ fs) ≢ []
    → junk ≢ quote
    → split (some (row_text (f ∷ fs))) comma quote junk ≡ some (values (f ∷ fs))
unfolding split
split-row_text f fs junk h ne hj =
    loop-row f fs (row_text (f ∷ fs)) [] 0 junk [] refl refl hj (λ e. absurd (ne e)) h
