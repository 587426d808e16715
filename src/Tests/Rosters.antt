-- ===== src/Tests/Rosters.antt =====
-- The students' file of HWs/HW4/main.c, and the lock of the money.
use cse344_coursework.Base.{
  ℕ, ◌-◌, ◌≤◌, ◌≡◌, ◌⊎◌, ◌≢◌, refl, All-test, Bool, true, false, not, ◌&&◌, Option, some, [], ◌∷◌,
  ◌==◌, ◌>>=◌, get_elem?, ℤ, pos, Bytes, codes, arith,
}
use cse344_coursework.Lines.{eof}
use cse344_coursework.Tokens.Join.{terminated}
use cse344_coursework.Hire.Roster.{Fields, init_students}
use cse344_coursework.Hire.Roster.Filled.{
  Given, IsGiven, texts, entered_from, init_students-entered,
}
use cse344_coursework.Hire.Purse.{
  Purse, init_money_sync, reader_in, reader_locks, enters, locks, start, next, Reach-alone,
}
use cse344_coursework.Hire.Purse

-- A name of one letter, and three digits.
abbrev digit : Bytes → ℕ → Option ℤ
digit line i = get_elem? line i >>= λ c. some (pos (c - 48))

abbrev scan : Bytes → Fields
scan line = record {
  school = get_elem? line 0 >>= λ c. some (c ∷ []);
  quality = digit line 2;
  speed = digit line 4;
  cost = digit line 6;
}

abbrev odtu : Given
odtu = record {
  text = codes "O 5 3 9";
  school = codes "O";
  quality = pos 5;
  speed = pos 3;
  cost = pos 9;
}

abbrev itu : Given
itu = record {
  text = codes "I 4 5 8";
  school = codes "I";
  quality = pos 4;
  speed = pos 5;
  cost = pos 8;
}

abbrev usual : ℕ → Bool
usual x = not (x == b'\n') && not (x == eof)

usual-ne : (x : ℕ) → usual x ≡ true → x ≢ b'\n'
usual-ne x h = ground arith

usual-ne_eof : (x : ℕ) → usual x ≡ true → x ≢ eof
usual-ne_eof x h = ground arith

odtu-IsGiven : IsGiven scan odtu
odtu-IsGiven = record {
  ne_nil = λ e. cc;
  line = record {
    one_line = All-test (λ x. x ≢ b'\n') usual usual-ne odtu.text refl;
    fits = omega arith;
  };
  plain = All-test (λ x. x ≢ eof) usual usual-ne_eof odtu.text refl;
  read = refl;
}

itu-IsGiven : IsGiven scan itu
itu-IsGiven = record {
  ne_nil = λ e. cc;
  line = record {
    one_line = All-test (λ x. x ≢ b'\n') usual usual-ne itu.text refl;
    fits = omega arith;
  };
  plain = All-test (λ x. x ≢ eof) usual usual-ne_eof itu.text refl;
  read = refl;
}

init_students-entered_example :
    init_students scan (terminated b'\n' (texts (odtu ∷ itu ∷ []))) 0
    ≡ some (entered_from 0 (odtu ∷ itu ∷ []))
init_students-entered_example =
    init_students-entered scan (odtu ∷ itu ∷ []) 0 (odtu-IsGiven, (itu-IsGiven, tt))

-- One thread reads.
abbrev read_once : Purse
read_once = record {
  money = 50;
  readcnt = 1;
  save_m = true;
  wrt_m = false;
  entering = 0;
  reading = 1;
  writing = 0;
}

read_once-Reach : Purse.Reach 50 read_once
unfolding init_money_sync reader_in reader_locks
read_once-Reach = next (next start (enters refl)) (locks (omega arith) refl)

Reach-alone_example : (read_once.writing ≤ 1) × ((read_once.writing ≡ 0) ⊎ (read_once.reading ≡ 0))
Reach-alone_example = Reach-alone 50 read_once read_once-Reach
