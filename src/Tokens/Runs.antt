-- ===== src/Tokens/Runs.antt =====
-- The splitters return the maximal runs of characters between delimiters.
use cse344_coursework.Base.{
  ℕ, ◌+◌, ◌-◌, ◌≡◌, refl, ◌≢◌, ap, All, Bool, ◌||◌, Option, none, some, List, [], ◌∷◌, ◌++◌, ◌==◌,
  if◌then◌else◌, Bool-cases, Bytes, length, take-drop-append, length-append, append-nil,
  append_assoc, arith, ◌∙◌, sym, inl, inr,
}
use cse344_coursework.Tokens.{until_nul, substr, flush, keep_from, split_loop, split2, split}

-- The words of a text, with no index: `cur` is the run that is open.
abbrev pub close : Bytes → List Bytes → List Bytes
close [] ws = ws
close (x ∷ cur) ws = (x ∷ cur) ∷ ws

unfoldable pub runs : (ℕ → Bool) → Bytes → Bytes → List Bytes
runs delim cur [] = close cur []
runs delim cur (x ∷ str) =
    let rest = runs delim [] str in
    let more = runs delim (cur ++ (x ∷ [])) str in if delim x then close cur rest else more

until_nul-id : (q : Bytes) → All (λ x. x ≢ 0) q → until_nul q ≡ q
unfolding until_nul
until_nul-id [] h = refl
until_nul-id (x ∷ q) (h, hs) = ground (arith, until_nul-id q hs)

pub substr-run :
    (p q r : Bytes)
    → All (λ x. x ≢ 0) q
    → substr (p ++ (q ++ r)) (length p) (length p + length q) ≡ some q
unfolding substr
substr-run p q r h =
    let e : length p + length q - length p ≡ length q = omega arith in
    rw (e, take-drop-append p q r, until_nul-id q h) (ground arith)

-- `from` for an open run `cur` behind `p`: -1 if it is empty, else the index of its head.
abbrev from_of : Bytes → Bytes → Option ℕ
from_of p [] = none
from_of p (x ∷ cur) = some (length p)

flush-close :
    (save p cur r : Bytes) (path : List Bytes) (i : ℕ)
    → save ≡ p ++ (cur ++ r)
    → i ≡ length p + length cur
    → All (λ x. x ≢ 0) cur
    → flush save path (from_of p cur) i ≡ some (path ++ close cur [])
unfolding flush
flush-close save p [] r path i e ei h = ap some (sym (append-nil path))
flush-close save p (x ∷ cur) r path i e ei h = rw (e, ei, substr-run p (x ∷ cur) r h)

All-append_one : (x : ℕ) (q : Bytes) → All (λ x. x ≢ 0) q → x ≢ 0 → All (λ x. x ≢ 0) (q ++ (x ∷ []))
All-append_one x [] h hx = (hx, tt)
All-append_one x (y ∷ q) (h, hs) hx = (h, All-append_one x q hs hx)

close-append : (cur : Bytes) (ws : List Bytes) → close cur [] ++ ws ≡ close cur ws
close-append [] ws = refl
close-append (x ∷ cur) ws = refl

from_of-keep :
    (p cur : Bytes) (x i : ℕ)
    → i ≡ length p + length cur
    → keep_from (from_of p cur) i ≡ from_of p (cur ++ (x ∷ []))
unfolding keep_from
from_of-keep p [] x i e = ap some (omega arith)
from_of-keep p (y ∷ cur) x i e = refl

split_loop-runs :
    (delim : ℕ → Bool) (save str p cur : Bytes) (path : List Bytes) (i : ℕ)
    → save ≡ p ++ (cur ++ str)
    → i ≡ length p + length cur
    → All (λ x. x ≢ 0) cur
    → All (λ x. x ≢ 0) str
    → split_loop delim save str i (from_of p cur) path ≡ some (path ++ runs delim cur str)
unfolding split_loop runs
split_loop-runs delim save [] p cur path i e ei h hs = flush-close save p cur [] path i e ei h
split_loop-runs delim save (x ∷ str) p cur path i e ei h (hx, hs) = elim (Bool-cases (delim x)) [
  | inl d ↦
      rw (d, flush-close save p cur (x ∷ str) path i e ei h)
        (split_loop-runs delim save str (p ++ (cur ++ (x ∷ []))) [] (path ++ close cur []) (i + 1)
            (e ∙ simp append_assoc)
            (omega (arith, length-append p (cur ++ (x ∷ [])), length-append cur (x ∷ []))) tt hs
          ∙ ap some (simp (append_assoc, close-append)))
  | inr n ↦
      rw (n, from_of-keep p cur x i ei)
        (split_loop-runs delim save str p (cur ++ (x ∷ [])) path (i + 1) (e ∙ simp append_assoc)
          (omega (arith, length-append cur (x ∷ []))) (All-append_one x cur h hx) hs)
]

-- On every text without a NUL, `split2` reads no memory out of bounds and returns the maximal runs
-- of characters that are neither `c` nor `opt`, in order.
pub split2-runs :
    (str : Bytes) (c opt : ℕ)
    → All (λ x. x ≢ 0) str
    → split2 (some str) c opt ≡ some (runs (λ x. (x == c) || (x == opt)) [] str)
unfolding split2
split2-runs str c opt h = split_loop-runs _ str str [] [] [] 0 refl refl tt h

-- On every text without a NUL, `split` reads no memory out of bounds and returns the maximal runs
-- of characters that are not `c`, in order.
pub split-runs :
    (str : Bytes) (c : ℕ)
    → All (λ x. x ≢ 0) str
    → split (some str) c ≡ some (runs (λ x. x == c) [] str)
unfolding split
split-runs str c h = split_loop-runs _ str str [] [] [] 0 refl refl tt h
