-- ===== src/Session/Conversation.antt =====
-- Server and client together: thread_pool_handler of Final/Server/main.c and client_request of
-- Final/Client/main.c on the same messages.
use cse344_coursework.Base.{
  ℕ, suc, ◌≡◌, refl, ap, ◌∙◌, sym, All, true, false, ℤ, pos, some, List, [], ◌∷◌, ◌++◌, ◌==◌,
  if◌then◌else◌, Bool-cases, inl, inr, Bytes, length, append_assoc, append-nil, arith, map,
}
use cse344_coursework.Query.{Table}
use cse344_coursework.Session.{Message, text, Worker, end_notification, start_notification, attend}
use cse344_coursework.Session.Client.{
  receive, read_lines, request_loop, client_request, Outcome, asked,
}
use cse344_coursework.Session.Lines.{
  Entry, IsEntry, line_text, file_text, decimal, scan-line_text, fgets_lines-file_text,
}
use cse344_coursework.Session.Protocol.{Replies, done, next, reply, replies, serve-Replies}

read_lines-map :
    (rs : List Bytes) (ms : List Message)
    → read_lines (length rs) (map text rs ++ ms) ≡ some (rs, ms)
unfolding read_lines
read_lines-map [] ms = refl
read_lines-map (r ∷ rs) ms = rw (read_lines-map rs ms)

-- The client reads the records that the server sent, and nothing behind them.
pub receive-reply : (rs : List Bytes) (ms : List Message) → receive (reply rs ++ ms) ≡ some (rs, ms)
unfolding receive
receive-reply rs ms = read_lines-map rs ms

-- The queries of a client in the file, in order.
unfoldable pub queries_of : (id : ℕ) → List Entry → List Bytes
queries_of id [] = []
queries_of id (e ∷ es) =
    let rest = queries_of id es in if id == decimal 0 e.client then e.query ∷ rest else rest

queries_of-own :
    (id : ℕ) (e : Entry) (es : List Entry)
    → (id == decimal 0 e.client) ≡ true
    → queries_of id (e ∷ es) ≡ e.query ∷ queries_of id es
unfolding queries_of
queries_of-own id e es own = rw own

queries_of-other :
    (id : ℕ) (e : Entry) (es : List Entry)
    → (id == decimal 0 e.client) ≡ false
    → queries_of id (e ∷ es) ≡ queries_of id es
unfolding queries_of
queries_of-other id e es other = rw other

-- What the client has done when it ends.
abbrev finished : ℕ → List Entry → List (List Bytes) → List Message → Outcome
finished id es rss ms = record {
  sent = queries_of id es ++ (end_notification ∷ []);
  printed = rss;
  queries = length rss;
  unread = ms;
}

request_loop-own :
    (id : ℕ) (query_id : ℤ) (e : Entry) (es : List Entry) (rss : List (List Bytes))
    (ms : List Message)
    → IsEntry e
    → (id == decimal 0 e.client) ≡ true
    → length rss ≡ suc (length (queries_of id es))
    → ((rss' : List (List Bytes))
        → length rss' ≡ length (queries_of id es)
        → request_loop (pos id) (pos (decimal 0 e.client)) (map line_text es) (replies rss' ++ ms)
          ≡ some (finished id es rss' ms))
    → request_loop (pos id) query_id (map line_text (e ∷ es)) (replies rss ++ ms)
      ≡ some (finished id (e ∷ es) rss ms)
unfolding request_loop asked queries_of
request_loop-own id query_id e es [] ms is own l rest = absurd (omega (arith, l))
request_loop-own id query_id e es (rs ∷ rss) ms is own l rest =
    ap (λ m. request_loop (pos id) query_id (map line_text (e ∷ es)) m)
      (append_assoc (reply rs) (replies rss) ms)
    ∙ rw (
      scan-line_text e query_id is,
      own,
      receive-reply rs (replies rss ++ ms),
      rest rss (omega (arith, l)),
    )

request_loop-queries_of :
    (id : ℕ) (query_id : ℤ) (es : List Entry) (rss : List (List Bytes)) (ms : List Message)
    → All IsEntry es
    → length rss ≡ length (queries_of id es)
    → request_loop (pos id) query_id (map line_text es) (replies rss ++ ms)
      ≡ some (record {
        sent = queries_of id es ++ (end_notification ∷ []);
        printed = rss;
        queries = length rss;
        unread = ms;
      })
unfolding request_loop queries_of asked
request_loop-queries_of id query_id [] [] ms is e = refl
request_loop-queries_of id query_id [] (rs ∷ rss) ms is e = absurd (omega arith)
request_loop-queries_of id query_id (e ∷ es) rss ms (is, iss) l =
    elim (Bool-cases (id == decimal 0 e.client)) [
      | inl own ↦
          request_loop-own id query_id e es rss ms is own
            (l ∙ ap length (queries_of-own id e es own))
            (λ rss' q. request_loop-queries_of id (pos (decimal 0 e.client)) es rss' ms iss q)
      | inr other ↦
          rw (scan-line_text e query_id is, other)
            (request_loop-queries_of id (pos (decimal 0 e.client)) es rss ms iss
              (l ∙ ap length (queries_of-other id e es other)))
    ]

Replies-length :
    {table table' : Table} {queries : List Bytes} {rss : List (List Bytes)}
    → Replies table queries table' rss
    → length rss ≡ length queries
Replies-length done = refl
Replies-length (next a r) = ap suc (Replies-length r)

-- From the start notification to the end: if every query of the client in a well-formed file is
-- answered, the server gets these queries in order, and the client prints for each the records of
-- its answer, and leaves no message unread.
pub attend-client_request :
    (w : Worker) (id : ℕ) (junk : ℤ) (es : List Entry) (table : Table) (rss : List (List Bytes))
    → All IsEntry es
    → Replies w.table (queries_of id es) table rss
    → (w' : Worker) × (ms : List Message) × (attend w (queries_of id es ++ (end_notification ∷ []))
        ≡ some (w', ms))
      × (w'.table ≡ table)
      × (client_request (pos id) junk (file_text es) ms
          ≡ some (record {
            sent = queries_of id es ++ (end_notification ∷ []);
            printed = rss;
            queries = length (queries_of id es);
            unread = [];
          }))
unfolding attend client_request
attend-client_request w id junk es table rss is r =
    let (w', e, t) = serve-Replies w r refl in
    let len = Replies-length r in
    (
      w',
      text start_notification ∷ replies rss,
      rw e,
      t,
      rw (fgets_lines-file_text es is) (
          ap (request_loop (pos id) junk (map line_text es)) (sym (append-nil (replies rss)))
          ∙ request_loop-queries_of id junk es rss [] is len
          ∙ ap
              (λ n. some (record {
                sent = queries_of id es ++ (end_notification ∷ []);
                printed = rss;
                queries = n;
                unread = [];
              }))
              len),
    )
