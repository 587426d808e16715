-- ===== src/Tests/Conversations.antt =====
-- The server's query thread and the client at concrete data.
use cse344_coursework.Base.{
  ℕ, ◌≡◌, ◌≢◌, refl, pos, Bool, true, not, ◌&&◌, none, some, List, [], ◌∷◌, ◌==◌, map, Bytes, codes,
  All, All-test, arith,
}
use cse344_coursework.Tokens.{split2}
use cse344_coursework.Query.{Row, Table, parse_query, find_column}
use cse344_coursework.Query.Select.{picked}
use cse344_coursework.Query.Marks.{mask_of, elem}
use cse344_coursework.Session.{
  Worker, Message, new_worker, end_notification, respond, serve, attend,
}
use cse344_coursework.Session.Client.{client_request}
use cse344_coursework.Session.Lines.{Entry, IsEntry, line_text, file_text}
use cse344_coursework.Session.Protocol.{Answers, done, next, is_newline, reply, serve-stale}
use cse344_coursework.Session.Conversation.{queries_of, attend-client_request}
use cse344_coursework.Session.Rows.{IsPlain, Printable, select-Answers, respond-select}

abbrev names : Row
names = codes "id" ∷ codes "name" ∷ []

abbrev table : Table
table = names ∷ (codes "1" ∷ codes "bob" ∷ []) ∷ []

abbrev query : Bytes
query = codes "SELECT name FROM t"

abbrev plain : ℕ → Bool
plain x = not (x == 0) && not (is_newline x)

plain-IsPlain : (x : ℕ) → plain x ≡ true → IsPlain x
plain-IsPlain x h = ground arith

abbrev marks : List Bool
marks = mask_of (elem (codes "name" ∷ [])) names

all-Printable : All (Printable marks) table
unfolding picked mask_of
all-Printable = (
  ((λ e. cc), All-test IsPlain plain plain-IsPlain (codes "name ") refl, omega arith),
  (((λ e. cc), All-test IsPlain plain plain-IsPlain (codes "bob ") refl, omega arith), tt),
)

query-Answers : Answers table query table (map (picked marks) table)
unfolding split2 find_column
query-Answers =
    select-Answers names ((codes "1" ∷ codes "bob" ∷ []) ∷ []) query (codes "name") []
      (codes "t" ∷ []) 1 refl ((refl, tt), (tt, tt)) (refl, tt) refl refl refl tt refl all-Printable

respond-select_example :
    (w' : Worker) × (respond (new_worker table) query ≡ some (w', reply (map (picked marks) table)))
    × (w'.table ≡ table)
unfolding split2 find_column
respond-select_example =
    respond-select (new_worker table) names ((codes "1" ∷ codes "bob" ∷ []) ∷ []) query
      (codes "name") [] (codes "t" ∷ []) 1 refl refl ((refl, tt), (tt, tt)) (refl, tt) refl refl
      refl tt refl all-Printable

-- Nothing is answered to the empty query.
serve-stale_example : serve (new_worker table) (query ∷ [] ∷ []) ≡ none
unfolding parse_query split2 picked mask_of
serve-stale_example =
    serve-stale (new_worker table) query table table (codes "name ") (codes "bob " ∷ []) [] []
      query-Answers refl refl

abbrev first_line : Entry
first_line = record { client = codes "1"; query = query }

abbrev second_line : Entry
second_line = record { client = codes "02"; query = codes "SELECT id FROM t" }

abbrev one_line : ℕ → Bool
one_line x = not (x == b'\n')

one_line-ne : (x : ℕ) → one_line x ≡ true → x ≢ b'\n'
one_line-ne x h = ground arith

first_line-IsEntry : IsEntry first_line
unfolding line_text
first_line-IsEntry = record {
  has_digit = λ e. cc;
  all_digits = (refl, tt);
  one_line = All-test (λ x. x ≢ b'\n') one_line one_line-ne query refl;
  no_space = refl;
  fits = omega arith;
}

second_line-IsEntry : IsEntry second_line
unfolding line_text
second_line-IsEntry = record {
  has_digit = λ e. cc;
  all_digits = (refl, (refl, tt));
  one_line = All-test (λ x. x ≢ b'\n') one_line one_line-ne (codes "SELECT id FROM t") refl;
  no_space = refl;
  fits = omega arith;
}

attend-client_request_example :
    (w' : Worker) × (ms : List Message) × (attend (new_worker table) (query ∷ end_notification ∷ [])
      ≡ some (w', ms))
    × (w'.table ≡ table)
    × (client_request (pos 1) (pos 7) (file_text (first_line ∷ second_line ∷ [])) ms
        ≡ some (record {
          sent = query ∷ end_notification ∷ [];
          printed = map (picked marks) table ∷ [];
          queries = 1;
          unread = [];
        }))
unfolding queries_of
attend-client_request_example =
    attend-client_request (new_worker table) 1 (pos 7) (first_line ∷ second_line ∷ []) table
      (map (picked marks) table ∷ []) (first_line-IsEntry, (second_line-IsEntry, tt))
      (next query-Answers done)
