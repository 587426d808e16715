-- ===== src/Session/Protocol.antt =====
-- What thread_pool_handler of Final/Server/main.c sends for the queries of a connection.
use mathlib.Core.Path.{subst}
use cse344_coursework.Base.{
  ℕ, ◌<◌, ◌≡◌, refl, ◌≢◌, ap, sym, All, Bool, false, ◌||◌, none, some, List, [], ◌∷◌, ◌++◌, ◌==◌,
  Bool-cases, inl, inr, Bytes, str_eq, str_eq_iff, length, arith, map,
}
use cse344_coursework.Tokens.{split2}
use cse344_coursework.Tokens.Runs.{runs, split2-runs}
use cse344_coursework.Query.{Table, parse_query}
use cse344_coursework.Session.{
  Message, text, count, Records, null, freed, Worker, buffer_size, end_notification, packed,
  take_records, freepath, send_lines, send_records, report, respond, serve,
}

abbrev pub is_newline : ℕ → Bool
is_newline x = (x == b'\n') || (x == b'\n')

-- The table answers a query with these records, the non-empty lines of the answer, and goes on as
-- `table'`. Each fits in a buffer.
pub record Answers (table : Table) (query : Bytes) (table' : Table) (rs : List Bytes) : Type 0 where
  pub answer : Bytes
  pub parsed : parse_query table query ≡ some (table', some answer)
  pub no_nul : All (λ x. x ≢ 0) answer
  pub lines : runs is_newline [] answer ≡ rs
  pub short : All (λ (r : Bytes). length r < buffer_size) rs

-- The same for queries one after the other.
pub data Replies : Table → List Bytes → Table → List (List Bytes) → Type 0 where
  done : {table : Table} → Replies table [] table []
  next :
      {table table' table'' : Table} {query : Bytes} {rs : List Bytes} {queries : List Bytes}
      {rss : List (List Bytes)}
      → Answers table query table' rs
      → Replies table' queries table'' rss
      → Replies table (query ∷ queries) table'' (rs ∷ rss)

-- The messages for the records.
abbrev pub reply : List Bytes → List Message
reply rs = count (length rs) ∷ map text rs

abbrev pub replies : List (List Bytes) → List Message
replies [] = []
replies (rs ∷ rss) = reply rs ++ replies rss

send_lines-short :
    (rs : List Bytes)
    → All (λ (r : Bytes). length r < buffer_size) rs
    → send_lines rs ≡ some (map text rs)
unfolding send_lines
send_lines-short [] h = refl
send_lines-short (r ∷ rs) (h, hs) = rw (send_lines-short rs hs) (ground arith)

left_records : List Bytes → Records
left_records [] = null
left_records (r ∷ rs) = freed

report-packed :
    (rs : List Bytes) (table : Table)
    → All (λ (r : Bytes). length r < buffer_size) rs
    → report table (packed rs) (length rs)
      ≡ some (record { table = table; records = left_records rs; number = length rs }, reply rs)
unfolding packed report freepath send_records left_records
report-packed [] table h = refl
report-packed (r ∷ rs) table h = rw (send_lines-short (r ∷ rs) h)

-- An answered query: the number of records and the records are sent, whatever the pointer held.
pub respond-Answers :
    (w : Worker) (query : Bytes) (table' : Table) (rs : List Bytes)
    → Answers w.table query table' rs
    → (w' : Worker) × (respond w query ≡ some (w', reply rs)) × (w'.table ≡ table')
unfolding respond take_records
respond-Answers w query table' rs a = (
  record { table = table'; records = left_records rs; number = length rs },
  rw (a.parsed, split2-runs a.answer b'\n' b'\n' a.no_nul, a.lines)
      (report-packed rs table' a.short),
  refl,
)

-- The end notification is no query that is answered.
parse_query-end : (table : Table) → parse_query table end_notification ≡ some (table, none)
unfolding parse_query split2
parse_query-end table = refl

not-end :
    (table : Table) (query : Bytes) (table' : Table) (rs : List Bytes)
    → Answers table query table' rs
    → str_eq query end_notification ≡ false
not-end table query table' rs a = elim (Bool-cases (str_eq query end_notification)) [
  | inl e ↦
      let same : query ≡ end_notification = (str_eq_iff query end_notification).0 e in
      cc (a.parsed, ap (parse_query table) same, parse_query-end table)
  | inr n ↦ n
]

pub serve-Replies :
    (w : Worker) {table table' : Table} {queries : List Bytes} {rss : List (List Bytes)}
    → Replies table queries table' rss
    → w.table ≡ table
    → (w' : Worker) × (serve w (queries ++ (end_notification ∷ [])) ≡ some (w', replies rss))
      × (w'.table ≡ table')
unfolding serve
serve-Replies w done t = (w, refl, t)
serve-Replies w (next {table' = table1} {query = query} {rs = rs} a r) t =
    let a' = subst (λ t'. Answers t' query table1 rs) (sym t) a in
    let (w1, e1, t1) = respond-Answers w query table1 rs a' in
    let (w2, e2, t2) = serve-Replies w1 r t1 in
    (w2, rw (not-end w.table query table1 rs a', e1, e2), t2)

-- A query that gets no answer, behind one that got some records: the thread reads records that it
-- has freed.
pub serve-stale :
    (w : Worker) (query : Bytes) (table table' : Table) (r : Bytes) (rs : List Bytes)
    (query' : Bytes) (queries : List Bytes)
    → Answers w.table query table (r ∷ rs)
    → str_eq query' end_notification ≡ false
    → parse_query table query' ≡ some (table', none)
    → serve w (query ∷ query' ∷ queries) ≡ none
unfolding serve respond take_records report send_records left_records
serve-stale w query table table' r rs query' queries a n p = rw (
  not-end w.table query table (r ∷ rs) a,
  a.parsed,
  split2-runs a.answer b'\n' b'\n' a.no_nul,
  a.lines,
  report-packed (r ∷ rs) table a.short,
  n,
  p,
)
