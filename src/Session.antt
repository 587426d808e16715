-- ===== src/Session.antt =====
-- One conversation between a query thread and a client: the loop of thread_pool_handler in
-- Final/Server/main.c behind dequeue, and client_request of Final/Client/main.c (Client). The
-- connection delivers each `write` as one message, in order, and neither side is interrupted. `none`
-- is undefined behaviour.
use cse344_coursework.Base.{
  ℕ, ◌+◌, ◌-◌, ◌≡◌, Option, none, some, List, [], ◌∷◌, ◌++◌, ltb, if◌then◌else◌, ◌>>=◌, Bytes,
  codes, str_eq, length,
}
use cse344_coursework.Tokens.{split2}
use cse344_coursework.Query.{Table, parse_query}
pub mod Client
pub mod Conversation
pub mod Lines
pub mod Protocol
pub mod Rows

-- The size of every text buffer, `BUFSIZ`.
abbrev pub buffer_size : ℕ
buffer_size = 8192

abbrev pub end_notification : Bytes
end_notification = codes "DONE"

abbrev pub start_notification : Bytes
start_notification = codes "READY"

-- What the server writes: a text, or the number of records that follow.
pub data Message : Type 0 where
  text : Bytes → Message
  count : ℕ → Message

-- What the pointer `records` refers to.
pub data Records : Type 0 where
  null : Records
  held : List Bytes → Records
  freed : Records

-- `records` and `numOfRecords` of the thread, which outlive a query and a connection, and the table.
pub record Worker : Type 0 where
  pub table : Table
  pub records : Records
  pub number : ℕ

-- `split2` leaves a null pointer if there is no token.
unfoldable pub packed : List Bytes → Records
packed [] = null
packed (r ∷ rs) = held (r ∷ rs)

-- `if (answer != NULL)`: else the old pointer stays.
unfoldable pub take_records : Records → ℕ → Option Bytes → Option (Records × ℕ)
unfolding packed
take_records r n none = some (r, n)
take_records r n (some answer) = do
  path ← split2 (some answer) b'\n' b'\n'
  some (packed path, length path)

-- `freepath`: a null pointer is left alone; freeing twice is undefined.
unfoldable pub freepath : Records → Option Records
freepath null = some null
freepath (held rs) = some freed
freepath freed = none

-- `strcpy(query, records[j])` and the `write`, for each record.
unfoldable pub send_lines : List Bytes → Option (List Message)
send_lines [] = some []
send_lines (r ∷ rs) =
    if ltb (length r) buffer_size then (do ms ← send_lines rs; some (text r ∷ ms)) else none

-- `if (records == NULL) numOfRecords = 0;`, the number, and the records if there are any.
unfoldable pub send_records : Records → ℕ → Option (ℕ × List Message)
unfolding send_lines
send_records null n = some (0, count 0 ∷ [])
send_records (held rs) n = do ms ← send_lines rs; some (n, count n ∷ ms)
send_records freed n = none

-- The body of the loop behind `parse_query` and `split2`.
unfoldable pub report : Table → Records → ℕ → Option (Worker × List Message)
unfolding send_records freepath
report table records number = do
  (number', ms) ← send_records records number
  records' ← freepath records
  some (record { table = table; records = records'; number = number' }, ms)

-- The body of the loop for one query.
unfoldable pub respond : Worker → Bytes → Option (Worker × List Message)
unfolding take_records report
respond w query = do
  (table, answer) ← parse_query w.table query
  (records, number) ← take_records w.records w.number answer
  report table records number

-- `while (strcmp(query, END_NOTIFICATION) != 0)` on the texts that the client sends.
unfoldable pub serve : Worker → List Bytes → Option (Worker × List Message)
unfolding respond
serve w [] = some (w, [])
serve w (query ∷ queries) =
    if str_eq query end_notification
    then some (w, [])
    else do (w', ms) ← respond w query; (w'', ms') ← serve w' queries; some (w'', ms ++ ms')

-- A connection from its start notification on.
unfoldable pub attend : Worker → List Bytes → Option (Worker × List Message)
unfolding serve
attend w queries = do (w', ms) ← serve w queries; some (w', text start_notification ∷ ms)

-- The pointer when the thread starts.
abbrev pub new_worker : Table → Worker
new_worker table = record { table = table; records = null; number = 0 }
