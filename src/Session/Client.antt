-- ===== src/Session/Client.antt =====
-- client_request of Final/Client/main.c. Its `write`s and what it reads are lists of messages; the
-- lines that it prints with a record are returned. `none` is undefined behaviour.
use cse344_coursework.Base.{
  ℕ, zero, suc, ◌+◌, ◌*◌, ◌-◌, Bool, false, not, ◌&&◌, ◌||◌, ℤ, pos, negsuc, Option, none, some,
  List, [], ◌∷◌, leb, ◌==◌, if◌then◌else◌, ◌>>=◌, Bytes,
}
use cse344_coursework.Lines.{fgets_lines}
use cse344_coursework.Options.{is_digit}
use cse344_coursework.Session.{Message, text, count, buffer_size, end_notification}

-- `isspace`
abbrev pub is_space : ℕ → Bool
is_space c = (c == 32) || (leb 9 c && leb c 13)

unfoldable pub skip_spaces : Bytes → Bytes
skip_spaces [] = []
skip_spaces (x ∷ s) = let rest = skip_spaces s in if is_space x then rest else x ∷ s

-- The digits at the head of a text: the number that they continue, and what is left.
unfoldable pub digits : ℕ → Bytes → ℕ × Bytes
digits n [] = (n, [])
digits n (x ∷ s) =
    let more = digits (n * 10 + (x - b'0')) s in if is_digit x then more else (n, x ∷ s)

-- A number needs a digit.
unfoldable pub number : Bytes → Option (ℕ × Bytes)
unfolding digits
number [] = none
number (x ∷ s) = if is_digit x then some (digits 0 (x ∷ s)) else none

abbrev pub negated : ℕ → ℤ
negated zero = pos 0
negated (suc n) = negsuc n

-- `%d` behind the spaces; `none` if it does not match.
unfoldable pub scan_sign : Bytes → Option (ℤ × Bytes)
unfolding number
scan_sign [] = none
scan_sign (x ∷ s) =
    if x == b'-'
    then (do (n, rest) ← number s; some (negated n, rest))
    else if x == b'+'
    then (do (n, rest) ← number s; some (pos n, rest))
    else (do (n, rest) ← number (x ∷ s); some (pos n, rest))

-- `%[^\n]`
unfoldable pub up_to_newline : Bytes → Bytes
up_to_newline [] = []
up_to_newline (x ∷ s) = let rest = up_to_newline s in if x == b'\n' then [] else x ∷ rest

-- `sscanf(line, "%d %[^\n]", &queryID, actualQuery)` on a cleared `actualQuery`. If there is no
-- number, `queryID` keeps its value.
unfoldable pub scan : (query_id : ℤ) → (line : Bytes) → ℤ × Bytes
unfolding scan_sign skip_spaces up_to_newline
scan query_id line = elim (scan_sign (skip_spaces line)) [
  | none ↦ (query_id, [])
  | some (n, rest) ↦ (n, up_to_newline (skip_spaces rest))
]

abbrev pub eq_ℤ : ℤ → ℤ → Bool
eq_ℤ (pos a) (pos b) = a == b
eq_ℤ (negsuc a) (negsuc b) = a == b
eq_ℤ (pos a) (negsuc b) = false
eq_ℤ (negsuc a) (pos b) = false

-- `for (i=0; i<numOfRecords; ++i)`: the records that are printed, and the messages behind them.
unfoldable pub read_lines : ℕ → List Message → Option (List Bytes × List Message)
read_lines zero ms = some ([], ms)
read_lines (suc n) [] = none
read_lines (suc n) (count k ∷ ms) = none
read_lines (suc n) (text r ∷ ms) = do (rs, rest) ← read_lines n ms; some (r ∷ rs, rest)

-- The number of records, and the records.
unfoldable pub receive : List Message → Option (List Bytes × List Message)
unfolding read_lines
receive [] = none
receive (text r ∷ ms) = none
receive (count n ∷ ms) = read_lines n ms

-- What the client sent, the records that it printed for each query, `numOfQuery`, and the messages
-- that it has not read.
pub record Outcome : Type 0 where
  pub sent : List Bytes
  pub printed : List (List Bytes)
  pub queries : ℕ
  pub unread : List Message

unfoldable pub asked : Bytes → List Bytes → Outcome → Outcome
asked query rs o = record {
  sent = query ∷ o.sent;
  printed = rs ∷ o.printed;
  queries = suc o.queries;
  unread = o.unread;
}

-- `while (fgets(...))`, and END_NOTIFICATION behind it.
unfoldable pub request_loop : (id query_id : ℤ) → List Bytes → List Message → Option Outcome
unfolding scan receive asked
request_loop id query_id [] ms =
    some (record { sent = end_notification ∷ []; printed = []; queries = 0; unread = ms })
request_loop id query_id (line ∷ lines) ms =
    let scanned = scan query_id line in
    let skipped = request_loop id scanned.0 lines ms in
    if not (eq_ℤ id scanned.0) then skipped else do
      (rs, rest) ← receive ms
      o ← request_loop id scanned.0 lines rest
      some (asked scanned.1 rs o)

-- `junk` is what the uninitialised `queryID` holds. A first message other than READY is reported
-- and the client goes on.
unfoldable pub client_request : (id junk : ℤ) → (file : Bytes) → List Message → Option Outcome
unfolding request_loop fgets_lines
client_request id junk file [] = none
client_request id junk file (count n ∷ ms) = none
client_request id junk file (text greeting ∷ ms) =
    request_loop id junk (fgets_lines buffer_size file []) ms
