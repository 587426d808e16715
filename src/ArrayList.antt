-- ===== src/ArrayList.antt =====
-- The growing array of HWs/HW4/list/arraylist.c. An element is one value of `A`: every address that
-- the source computes is a multiple of `elementSize`, so the array is a list of slots, and a slot
-- that was never written is `none`. `sem_wait` and `sem_post` are called once on every path; whether
-- they succeed, and which allocations do, are parameters. `none` as a result is undefined behaviour.
use cse344_coursework.Base.{
  ℕ, zero, suc, ◌+◌, ◌-◌, ◌*◌, ◌≡◌, Bool, true, false, not, ◌&&◌, ◌||◌, ℤ, pos, negsuc, minus_one,
  ltb_ℤ, Option, none, some, List, [], ◌∷◌, ◌++◌, ltb, leb, ◌==◌, if◌then◌else◌, ◌>>=◌, length,
  take, drop, set, get_elem?, replicate,
}
pub mod Moves
pub mod Contents
pub mod Remove

abbrev pub initial_capacity : ℕ
initial_capacity = 10

pub record ArrayList {ℓ} (A : Type ℓ) : Type ℓ where
  pub arr : List (Option A)
  pub size : ℕ
  pub capacity : ℕ

-- The status that is returned once the body is done: -1 also if `sem_post` fails.
abbrev pub status : (post_ok : Bool) → ℤ → ℤ
status post_ok r = if post_ok then r else minus_one

module _ {ℓ} {A : Type ℓ} where
  -- An allocation, of `malloc`, `sem_init` or `calloc`, fails if its flag is false.
  pub init : (element_size : ℤ) → (malloc_ok sem_ok calloc_ok : Bool) → Option (ArrayList A)
  init element_size malloc_ok sem_ok calloc_ok =
      if not (ltb_ℤ (pos 0) element_size) || not malloc_ok || not sem_ok || not calloc_ok
      then none
      else some
          (record { arr = replicate initial_capacity none; size = 0; capacity = initial_capacity })

  -- `memmove` of `n` slots inside the array.
  pub memmove : List (Option A) → (dest source n : ℕ) → Option (List (Option A))
  memmove arr dest source n =
      if leb (dest + n) (length arr) && leb (source + n) (length arr)
      then some (take dest arr ++ (take n (drop source arr) ++ drop (dest + n) arr))
      else none

  -- `while (newCapacity < capacity)`, on fuel: the new list and whether every `realloc` succeeded.
  -- `realloc_ok n` says whether `n` slots can be had; the new slots are not written.
  grow_loop : ℕ → (ℕ → Bool) → (capacity : ℕ) → ArrayList A → Option (Bool × ArrayList A)
  grow_loop zero realloc_ok capacity l = none
  grow_loop (suc fuel) realloc_ok capacity l =
      let bigger : ArrayList A = record {
        arr = l.arr ++ replicate l.capacity none;
        size = l.size;
        capacity = l.capacity * 2;
      } in
      let rest = grow_loop fuel realloc_ok capacity bigger in
      if ltb l.capacity capacity
      then (if realloc_ok (l.capacity * 2) then rest else some (false, l))
      else some (true, l)

  pub ensure_capacity : (ℕ → Bool) → (capacity : ℕ) → ArrayList A → Option (Bool × ArrayList A)
  unfolding grow_loop
  ensure_capacity realloc_ok capacity l = grow_loop (capacity + 1) realloc_ok capacity l

  -- Slots move up by one from `index` on, and the element goes where they were.
  insert : (index : ℕ) → A → ArrayList A → Option (ArrayList A)
  unfolding memmove
  insert index element l = do
    arr ← memmove l.arr (index + 1) index (l.size - index)
    some (record l { arr = set arr index (some element); size = l.size + 1 })

  -- `ArrayList_add`. The index is signed, and only its upper bound is checked: a negative index
  -- writes before the array.
  pub add :
      (wait_ok post_ok : Bool)
      → (ℕ → Bool)
      → (index : ℤ) → Option A
      → ArrayList A
      → Option (ℤ × ArrayList A)
  unfolding ensure_capacity insert
  add wait_ok post_ok realloc_ok index none l = some (minus_one, l)
  add wait_ok post_ok realloc_ok index (some e) l =
      if not wait_ok || ltb_ℤ (pos l.size) index then some (minus_one, l) else do
        (grown, l') ← ensure_capacity realloc_ok (l.size + 1) l
        if not grown then some (minus_one, l') else elim index [
          | negsuc k ↦ none
          | pos i ↦ do l'' ← insert i e l'; some (status post_ok (pos 0), l'')
        ]

  -- `ArrayList_append`
  pub append :
      (wait_ok post_ok : Bool) → (ℕ → Bool) → Option A → ArrayList A → Option (ℤ × ArrayList A)
  unfolding add
  append wait_ok post_ok realloc_ok none l = some (minus_one, l)
  append wait_ok post_ok realloc_ok (some e) l =
      add wait_ok post_ok realloc_ok (pos l.size) (some e) l

  -- `ArrayList_remove`
  pub remove : (wait_ok post_ok : Bool) → (index : ℤ) → ArrayList A → Option (ℤ × ArrayList A)
  unfolding memmove
  remove wait_ok post_ok index l =
      if not wait_ok || not (ltb_ℤ index (pos l.size)) then some (minus_one, l) else elim index [
        | negsuc k ↦ none
        | pos i ↦ do
          arr ← memmove l.arr i (i + 1) (l.size - (i + 1))
          some (status post_ok (pos 0), record l { arr = arr; size = l.size - 1 })
      ]

  -- `ArrayList_get`: what is written through `ret`, or `none` inside if nothing is. `ret = NULL` sets
  -- the parameter only, so the caller is not told.
  pub get : (wait_ok : Bool) → (index : ℤ) → ArrayList A → Option (Option A)
  get wait_ok index l =
      if not wait_ok || not (ltb_ℤ index (pos l.size)) then some none else elim index [
        | negsuc k ↦ none
        | pos i ↦ do slot ← get_elem? l.arr i; elim slot [ none ↦ none | some a ↦ some (some a) ]
      ]

  -- `ArrayList_size` and `ArrayList_isEmpty`
  pub size_of : (wait_ok post_ok : Bool) → ArrayList A → ℤ
  size_of wait_ok post_ok l = if not wait_ok then minus_one else status post_ok (pos l.size)

  pub is_empty : (wait_ok post_ok : Bool) → ArrayList A → ℤ
  is_empty wait_ok post_ok l =
      if not wait_ok then minus_one else status post_ok (pos (if l.size == 0 then 1 else 0))
