-- ===== src/Hire/Purse.antt =====
-- The lock of the money in HWs/HW4/main.c: read_cur_money and write_on_money, with any number of
-- threads in each. A section under `saveM` that does not wait is one step. SIGINT, which interrupts
-- waits, is not modelled.
use cse344_coursework.Base.{
  ℕ, ◌+◌, ◌-◌, ◌≤◌, ◌<◌, ◌≡◌, ◌⊎◌, inl, inr, Bool, Bool-cases, true, false, ◌==◌, if◌then◌else◌,
  arith,
}

-- `save_m` and `wrt_m` say whether the semaphore is 1. `entering` counts the readers that wait for
-- `wrtM` with `saveM` taken, `reading` those in between, and `writing` the writers behind the wait.
pub record Purse : Type 0 where
  pub money : ℕ
  pub readcnt : ℕ
  pub save_m : Bool
  pub wrt_m : Bool
  pub entering : ℕ
  pub reading : ℕ
  pub writing : ℕ

-- `init_money_sync`
unfoldable pub init_money_sync : (money : ℕ) → Purse
init_money_sync money = record {
  money = money;
  readcnt = 0;
  save_m = true;
  wrt_m = true;
  entering = 0;
  reading = 0;
  writing = 0;
}

-- `read_cur_money` behind its first wait for `saveM`: the first reader waits for `wrtM` with it.
unfoldable pub reader_in : Purse → Purse
reader_in p =
    let p' = record p { readcnt = p.readcnt + 1 } in
    if p'.readcnt == 1
    then record p' { save_m = false; entering = p.entering + 1 }
    else record p' { reading = p.reading + 1 }

-- behind the wait for `wrtM`,
unfoldable pub reader_locks : Purse → Purse
reader_locks p = record p {
  wrt_m = false;
  save_m = true;
  entering = p.entering - 1;
  reading = p.reading + 1;
}

-- and behind its second wait for `saveM`.
unfoldable pub reader_out : Purse → Purse
reader_out p =
    let p' = record p { readcnt = p.readcnt - 1; reading = p.reading - 1 } in
    if p'.readcnt == 0 then record p' { wrt_m = true } else p'

pub data Step (p : Purse) : Purse → Type 0 where
  enters : p.save_m ≡ true → Step p (reader_in p)
  locks : 0 < p.entering → p.wrt_m ≡ true → Step p (reader_locks p)
  leaves : 0 < p.reading → p.save_m ≡ true → Step p (reader_out p)
  -- `write_on_money`
  begins : p.wrt_m ≡ true → Step p (record p { wrt_m = false; writing = p.writing + 1 })
  writes :
      (new_money : ℕ)
      → 0 < p.writing
      → Step p (record p { money = new_money; wrt_m = true; writing = p.writing - 1 })

pub data Reach (money : ℕ) : Purse → Type 0 where
  start : Reach money (init_money_sync money)
  next : {p q : Purse} → Reach money p → Step p q → Reach money q

pub record Inv (p : Purse) : Type 0 where
  pub counted : p.readcnt ≡ p.entering + p.reading
  pub outside : p.save_m ≡ true → p.entering ≡ 0
  pub inside : p.save_m ≡ false → (p.entering ≡ 1) × (p.reading ≡ 0)
  pub free : p.wrt_m ≡ true → (p.reading ≡ 0) × (p.writing ≡ 0)
  pub taken :
      p.wrt_m ≡ false → ((p.writing ≡ 1) × (p.reading ≡ 0)) ⊎ ((p.writing ≡ 0) × (0 < p.reading))

reader_in-Inv : (p : Purse) → p.save_m ≡ true → Inv p → Inv (reader_in p)
unfolding reader_in
reader_in-Inv p s v = ground (arith, v.outside s)

reader_locks-Inv : (p : Purse) → 0 < p.entering → p.wrt_m ≡ true → Inv p → Inv (reader_locks p)
unfolding reader_locks
reader_locks-Inv p e w v = ground (arith, v.free w)

reader_out-Inv : (p : Purse) → 0 < p.reading → p.save_m ≡ true → Inv p → Inv (reader_out p)
unfolding reader_out
reader_out-Inv p r s v = ground (arith, v.outside s)

Step-Inv : (p : Purse) {q : Purse} → Step p q → Inv p → Inv q
Step-Inv p (enters s) v = reader_in-Inv p s v
Step-Inv p (locks e w) v = reader_locks-Inv p e w v
Step-Inv p (leaves r s) v = reader_out-Inv p r s v
Step-Inv p (begins w) v = ground (arith, v.free w)
Step-Inv p (writes m w) v = ground arith

Reach-Inv : {money : ℕ} {p : Purse} → Reach money p → Inv p
unfolding init_money_sync
Reach-Inv start = ground arith
Reach-Inv (next r st) = Step-Inv _ st (Reach-Inv r)

zero_cases : (n : ℕ) → (0 < n) ⊎ (n ≡ 0)
zero_cases n = ground arith

-- The money is written by at most one thread, and by none while another one reads it.
pub Reach-alone :
    (money : ℕ) (p : Purse) → Reach money p → (p.writing ≤ 1) × ((p.writing ≡ 0) ⊎ (p.reading ≡ 0))
Reach-alone money p r =
    let v = Reach-Inv r in
    elim (Bool-cases p.wrt_m) [
      | inl e ↦ ground (arith, v.free e)
      | inr e ↦ ground (arith, v.taken e)
    ]

-- No thread waits for ever because of the lock: whenever one is inside or waits with `saveM` taken, one
-- of those can go on.
pub Reach-goes_on :
    (money : ℕ) (p : Purse)
    → Reach money p
    → 0 < p.entering + p.reading + p.writing
    → (q : Purse) × Step p q
Reach-goes_on money p r h =
    let v = Reach-Inv r in
    elim (Bool-cases p.save_m) [
      | inl s ↦ elim (zero_cases p.writing) [
        | inl w ↦ (_, writes p.money w)
        | inr w ↦ (_, leaves (omega (arith, h, v.outside s, w)) s)
      ]
      | inr s ↦ elim (Bool-cases p.wrt_m) [
        | inl free ↦ (_, locks (omega (arith, v.inside s)) free)
        | inr busy ↦ (_, writes p.money (ground (arith, v.inside s, v.taken busy)))
      ]
    ]
