-- ===== src/Tests/Queries.antt =====
-- The server's table, its lock and its tokenizers at concrete data.
use cse344_coursework.Base.{
  true, not, ◌&&◌, ℕ, ◌+◌, ◌<◌, ◌≤◌, ◌≡◌, ◌≢◌, refl, ◌⊎◌, some, List, [], ◌∷◌, ◌++◌, Bytes, codes,
  arith, ◌==◌,
}
use cse344_coursework.RwLock.{
  System, Reach, here, next, begin_write, begin_read, start, write_test, read_test, writer_goes,
  reader_goes,
}
use cse344_coursework.RwLock.Safety.{Reach-exclusive, Reach-not_lost}
use cse344_coursework.Query.{
  Row, Table, parse_query, update, find_row, matching_row, which_header, find_column, last_token,
  updated_columns,
}
use cse344_coursework.Query.Select.{render}
use cse344_coursework.Query.Marks.{mask_of, elem}
use cse344_coursework.Query.Answer.{parse_query-select}
use cse344_coursework.Query.Update.{Assignment, Updated, listed, update-Updated}
use cse344_coursework.Tokens.{split2}
use cse344_coursework.Csv.{comma, quote, read_csv}
use cse344_coursework.Csv.Scan.{IsLine, IsQuoted}
use cse344_coursework.Csv.File.{IsRow, file_text}
use cse344_coursework.Csv.Fill.{read_csv-file_text}
use cse344_coursework.Csv.Split.{Field, blank, bare, quoted, text, row_text, value}
use cse344_coursework.Csv.RoundTrip.{values}

-- Of two threads one has begun to write.
abbrev written : System
unfolding write_test
written = record {
  lock = (write_test (start 2).lock).1;
  crowd = writer_goes (write_test (start 2).lock).0 (record ((start 2).crowd) { idle = 1 });
}

written-Reach : Reach 2 written
unfolding write_test
written-Reach = next here (begin_write (omega arith))

Reach-exclusive_example :
    (written.crowd.writing ≤ 1) × ((written.crowd.writing ≡ 0) ⊎ (written.crowd.reading ≡ 0))
Reach-exclusive_example = Reach-exclusive 2 written written-Reach

-- The other one wants to read, and sleeps.
abbrev asleep : System
unfolding read_test write_test
asleep = record {
  lock = (read_test written.lock).1;
  crowd = reader_goes (read_test written.lock).0 (record (written.crowd) { idle = 0 });
}

asleep-Reach : Reach 2 asleep
unfolding read_test write_test
asleep-Reach = next written-Reach (begin_read (omega arith))

Reach-not_lost_example :
    0
    < asleep.crowd.reading + asleep.crowd.writing + asleep.crowd.woken_read
      + asleep.crowd.woken_write
unfolding read_test write_test
Reach-not_lost_example = Reach-not_lost 2 asleep asleep-Reach (omega arith)

abbrev names : Row
names = codes "id" ∷ codes "name" ∷ []

abbrev rows : Table
rows = (codes "1" ∷ codes "bob" ∷ []) ∷ (codes "2" ∷ codes "eve" ∷ []) ∷ []

abbrev assignment : Assignment
assignment = record {
  token = codes "name='ann'";
  name = codes "name";
  column = 1;
  value = codes "ann";
}

-- UPDATE t SET name='ann' WHERE id='2'
abbrev update_tokens : List Bytes
update_tokens = codes "t" ∷ codes "SET" ∷ codes "name='ann'" ∷ codes "WHERE" ∷ codes "id='2'" ∷ []

update-Updated_example :
    (table : Table) × (update (names ∷ rows) (codes "UPDATE") update_tokens
      ≡ some (table, (updated_columns ++ listed (assignment ∷ [])) ++ codes "\n"))
    × Updated (names ∷ rows) table 2 (codes "2" ∷ codes "eve" ∷ []) (assignment ∷ [])
unfolding matching_row find_row find_column which_header last_token split2
update-Updated_example =
    update-Updated names rows (codes "UPDATE") (codes "t") (codes "SET") (assignment ∷ [])
      (codes "id='2'" ∷ []) 2 (codes "2" ∷ codes "eve" ∷ []) refl refl
      (record { splits = refl; found = refl; named = refl; not_where = refl }, tt)

parse_query-select_example :
    parse_query (names ∷ rows) (codes "SELECT name FROM t")
    ≡ some (names ∷ rows, some (render (mask_of (elem (codes "name" ∷ [])) names) (names ∷ rows)))
unfolding split2 find_column
parse_query-select_example =
    parse_query-select names rows (codes "SELECT name FROM t") (codes "name") [] (codes "t" ∷ []) 1
      refl ((refl, tt), (tt, tt)) (refl, (refl, tt)) refl refl refl tt refl

nonzero : {x : ℕ} → 1 ≤ x → x ≢ 0
nonzero h e = omega arith

-- The row `a,"b,c",`
abbrev fields : List Field
fields = bare (codes "a") ∷ quoted (codes "b,c") ∷ blank ∷ []

fields-ne-nil : row_text fields ≢ []
unfolding row_text text
fields-ne-nil e = cc

-- id,name
-- 1,"b,c"
abbrev header : List Field
header = bare (codes "id") ∷ bare (codes "name") ∷ []

abbrev second_row : List Field
second_row = bare (codes "1") ∷ quoted (codes "b,c") ∷ []

char-IsLine :
    (x : ℕ)
    → (not (x == 0) && not (x == quote) && not (x == comma) && not (x == 10) && not (x == 255))
      ≡ true
    → IsLine x
char-IsLine x h = ground arith

char-IsQuoted : (x : ℕ) → (not (x == 0) && not (x == quote) && not (x == 255)) ≡ true → IsQuoted x
char-IsQuoted x h = ground arith

header-IsRow : IsRow 2 header
unfolding row_text text
header-IsRow = record {
  cells = (
    ((λ e. cc), (char-IsLine _ refl, (char-IsLine _ refl, tt))),
    (
      (
        (λ e. cc),
        (char-IsLine _ refl, (char-IsLine _ refl, (char-IsLine _ refl, (char-IsLine _ refl, tt)))),
      ),
      tt,
    ),
  );
  width = refl;
  not_empty = λ e. cc;
}

second_row-IsRow : IsRow 2 second_row
unfolding row_text text
second_row-IsRow = record {
  cells = (
    ((λ e. cc), (char-IsLine _ refl, tt)),
    ((char-IsQuoted _ refl, (char-IsQuoted _ refl, (char-IsQuoted _ refl, tt))), tt),
  );
  width = refl;
  not_empty = λ e. cc;
}

read_csv-file_text_example :
    read_csv (file_text (header ∷ second_row ∷ [])) 0 0 0
    ≡ some (some (codes "id" ∷ codes "name" ∷ []) ∷ some (codes "1" ∷ codes "b,c" ∷ []) ∷ [])
unfolding text values value
read_csv-file_text_example =
    read_csv-file_text (bare (codes "id")) (bare (codes "name") ∷ []) (second_row ∷ []) 0 0 0
      (header-IsRow, (second_row-IsRow, tt)) (λ e. cc) (λ e. omega arith)
