-- ===== src/Tokens.antt =====
-- substr and the delimiter splitters: Final/Server/main.c (substr, split2) and HWs/HW1/main.c
-- (split).
use cse344_coursework.Base.{
  ℕ, zero, suc, ◌+◌, ◌-◌, ◌≡◌, Bool, ◌||◌, Option, none, some, List, [], ◌∷◌, ◌++◌, ◌==◌,
  if◌then◌else◌, ◌>>=◌, Bytes, length, take, drop,
}
pub mod Join
pub mod Runs

pub until_nul : Bytes → Bytes
until_nul [] = []
until_nul (x ∷ s) = if x == 0 then [] else x ∷ until_nul s

-- Copies src[m .. n) up to a NUL, and returns `dest - len`: that is the start of the copy only if
-- all `len` characters were there. Otherwise the pointer lies before the buffer.
unfoldable pub substr : Bytes → ℕ → ℕ → Option Bytes
unfolding until_nul
substr src m n =
    let len = n - m in
    let copied = until_nul (take len (drop m src)) in
    if length copied == len then some copied else none

-- One token more, unless `from` is -1.
flush : Bytes → List Bytes → Option ℕ → ℕ → Option (List Bytes)
flush save path none i = some path
flush save path (some f) i = do t ← substr save f i; some (path ++ (t ∷ []))

unfoldable pub keep_from : Option ℕ → ℕ → Option ℕ
keep_from none i = some i
keep_from (some f) i = some f

-- The loop of `split2`: `str` is what is left of `save`, `i` the index of its head. A character is
-- a delimiter if it is `c` or `opt`.
split_loop : (ℕ → Bool) → Bytes → Bytes → ℕ → Option ℕ → List Bytes → Option (List Bytes)
split_loop delim save [] i from path = flush save path from i
split_loop delim save (x ∷ str) i from path =
    if delim x
    then (do path' ← flush save path from i; split_loop delim save str (i + 1) none path')
    else split_loop delim save str (i + 1) (keep_from from i) path

-- A null `path` with size 0 is the empty list.
unfoldable pub split2 : Option Bytes → ℕ → ℕ → Option (List Bytes)
unfolding split_loop flush keep_from substr
split2 none c opt = some []
split2 (some str) c opt = split_loop (λ x. (x == c) || (x == opt)) str str 0 none []

-- `split` of HWs/HW1: the same loop with one delimiter.
pub split : Option Bytes → ℕ → Option (List Bytes)
unfolding split_loop flush keep_from substr
split none c = some []
split (some str) c = split_loop (λ x. x == c) str str 0 none []
