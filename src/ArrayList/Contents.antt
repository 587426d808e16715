-- ===== src/ArrayList/Contents.antt =====
-- The array holds a list: its first `size` slots, in order. The operations are those of lists.
use cse344_coursework.Base.{
  ℕ, zero, suc, ◌+◌, ◌-◌, ◌*◌, ◌≤◌, ◌<◌, ◌≡◌, refl, ap, ◌∙◌, sym, Bool, true, false, pos, ltb_ℤ,
  Option, none, some, List, [], ◌∷◌, ◌++◌, map, ltb, ltb→lt, Bool-cases, inl, inr, length,
  replicate, length-append, append_assoc, arith,
}
use mathlib.Core.List.{map-append}
use cse344_coursework.ArrayList.{
  ArrayList, memmove, grow_loop, ensure_capacity, insert, status, add,
}
use cse344_coursework.ArrayList.Moves.{moved, shift_up}

module _ {ℓ} {A : Type ℓ} where
  pub record IsList (l : ArrayList A) (xs : List A) : Type ℓ where
    pub tail : List (Option A)
    pub slots : l.arr ≡ map some xs ++ tail
    pub size_length : l.size ≡ length xs
    pub capacity_length : l.capacity ≡ length l.arr
    pub capacity_pos : 0 < l.capacity

  pub length-map-some : (xs : List A) → length (map some xs) ≡ length xs
  length-map-some [] = refl
  length-map-some (x ∷ xs) = ap suc (length-map-some xs)

  pub length-replicate : (n : ℕ) (x : Option A) → length (replicate n x) ≡ n
  length-replicate zero x = refl
  length-replicate (suc n) x = ap suc (length-replicate n x)

  -- What `ensureCapacity` leaves: the same list, with room if it says so.
  pub record Grown (realloc_ok : ℕ → Bool) (capacity : ℕ) (xs : List A) (r : Bool × ArrayList A)
      : Type ℓ where
    pub same : IsList r.1 xs
    pub room : r.0 ≡ true → capacity ≤ r.1.capacity
    pub success : ((n : ℕ) → realloc_ok n ≡ true) → r.0 ≡ true

  grow_loop-Grown :
      (fuel : ℕ) (realloc_ok : ℕ → Bool) (capacity : ℕ) (l : ArrayList A) (xs : List A)
      → capacity - l.capacity < fuel
      → IsList l xs
      → (r : Bool × ArrayList A) × (grow_loop fuel realloc_ok capacity l ≡ some r)
        × Grown realloc_ok capacity xs r
  unfolding grow_loop
  grow_loop-Grown zero realloc_ok capacity l xs f is = absurd (omega arith)
  grow_loop-Grown (suc fuel) realloc_ok capacity l xs f is =
      elim (Bool-cases (ltb l.capacity capacity)) [
        | inr enough ↦ (
          (true, l),
          rw enough,
          record { same = is; room = λ _. ground arith; success = λ _. refl },
        )
        | inl small ↦ elim (Bool-cases (realloc_ok (l.capacity * 2))) [
          | inr failed ↦ (
            (false, l),
            rw (small, failed),
            record { same = is; room = λ e. cc; success = λ all. cc (all (l.capacity * 2)) },
          )
          | inl got ↦
              let bigger : ArrayList A = record {
                arr = l.arr ++ replicate l.capacity none;
                size = l.size;
                capacity = l.capacity * 2;
              } in
              let big : IsList bigger xs = record {
                tail = is.tail ++ replicate l.capacity none;
                slots =
                    ap (λ t. t ++ replicate l.capacity none) is.slots
                    ∙ append_assoc (map some xs) is.tail (replicate l.capacity none);
                size_length = is.size_length;
                capacity_length = omega (
                  arith,
                  is.capacity_length,
                  length-append {ℓ} l.arr (replicate l.capacity none),
                  length-replicate l.capacity none,
                );
                capacity_pos = omega (arith, is.capacity_pos);
              } in
              let (r, e, g) =
                grow_loop-Grown fuel realloc_ok capacity bigger xs
                  (omega (arith, is.capacity_pos, ltb→lt l.capacity capacity small)) big in
              (r, rw (small, got) e, g)
        ]
      ]

  pub ensure_capacity-Grown :
      (realloc_ok : ℕ → Bool) (capacity : ℕ) (l : ArrayList A) (xs : List A)
      → IsList l xs
      → (r : Bool × ArrayList A) × (ensure_capacity realloc_ok capacity l ≡ some r)
        × Grown realloc_ok capacity xs r
  unfolding ensure_capacity
  ensure_capacity-Grown realloc_ok capacity l xs is =
      grow_loop-Grown (capacity + 1) realloc_ok capacity l xs (omega arith) is

  pub memmove-moved :
      (arr : List (Option A)) (dest source n : ℕ)
      → dest + n ≤ length arr
      → source + n ≤ length arr
      → memmove arr dest source n ≡ some (moved arr dest source n)
  unfolding memmove
  memmove-moved arr dest source n h k = ground arith

  -- An array in its parts. `insert` on it, and `memmove` down by one.
  abbrev pub parts : (p z t : List (Option A)) → (size capacity : ℕ) → ArrayList A
  parts p z t size capacity = record { arr = p ++ (z ++ t); size = size; capacity = capacity }

  insert-parts :
      (p z t : List (Option A)) (s : Option A) (e : A) (size capacity : ℕ)
      → size ≡ length p + length z
      → insert (length p) e (parts p z (s ∷ t) size capacity)
        ≡ some (parts p (some e ∷ z) t (size + 1) capacity)
  unfolding insert
  insert-parts p z t s e size capacity h =
      let n : size - length p ≡ length z = omega arith in
      let k : length p + 1 ≡ suc (length p) = omega arith in
      let all = length-append {ℓ} p (z ++ (s ∷ t)) in
      let rest = length-append {ℓ} z (s ∷ t) in
      rw (
        n,
        k,
        memmove-moved (p ++ (z ++ (s ∷ t))) (suc (length p)) (length p) (length z)
            (omega (arith, all, rest)) (omega (arith, all, rest)),
        shift_up p z t s (some e),
      )

  pub to_parts :
      (l : ArrayList A) (ys zs : List A)
      → (is : IsList l (ys ++ zs)) → l ≡ parts (map some ys) (map some zs) is.tail l.size l.capacity
  to_parts l ys zs is =
      let e : l.arr ≡ map some ys ++ (map some zs ++ is.tail) =
        is.slots
        ∙ ap (λ t. t ++ is.tail) (map-append some ys zs)
        ∙ append_assoc (map some ys) (map some zs) is.tail in
      λ i. record { arr = e i; size = l.size; capacity = l.capacity }

  -- The write behind `sem_wait`, with room for one more.
  insert-IsList :
      (l : ArrayList A) (ys zs : List A) (e : A) (tail : List (Option A))
      → (is : IsList l (ys ++ zs)) → is.tail ≡ tail
      → length (ys ++ zs) + 1 ≤ l.capacity
      → (l' : ArrayList A) × (insert (length ys) e l ≡ some l') × IsList l' (ys ++ (e ∷ zs))
  insert-IsList l ys zs e [] is te room = absurd (
      omega (
        arith,
        is.capacity_length,
        ap length is.slots,
        ap length te,
        length-append {ℓ} (map some (ys ++ zs)) is.tail,
        length-map-some (ys ++ zs),
      ))
  insert-IsList l ys zs e (s ∷ t) is te room =
      let p = map some ys in
      let z = map some zs in
      let form : l ≡ parts p z (s ∷ t) l.size l.capacity =
        to_parts l ys zs is ∙ ap (λ x. parts p z x l.size l.capacity) te in
      let sizes : l.size ≡ length p + length z =
        omega (
          arith,
          is.size_length,
          length-append {ℓ} ys zs,
          length-map-some ys,
          length-map-some zs,
        ) in
      (
        parts p (some e ∷ z) t (l.size + 1) l.capacity,
        ap (λ n. insert n e l) (sym (length-map-some ys))
            ∙ ap (insert (length p) e) form
            ∙ insert-parts p z t s e l.size l.capacity sizes,
        record {
          tail = t;
          slots =
              sym (ap (λ x. x ++ t) (map-append some ys (e ∷ zs)) ∙ append_assoc p (some e ∷ z) t);
          size_length =
              omega (arith, is.size_length, length-append {ℓ} ys zs, length-append {ℓ} ys (e ∷ zs));
          capacity_length =
              is.capacity_length
              ∙ ap (λ (x : ArrayList A). length x.arr) form
              ∙ omega (
                arith,
                length-append {ℓ} p (z ++ (s ∷ t)),
                length-append {ℓ} z (s ∷ t),
                length-append {ℓ} p (some e ∷ (z ++ t)),
                length-append {ℓ} z t,
              );
          capacity_pos = is.capacity_pos;
        },
      )

  -- With memory to grow, adding at an index up to the size puts the element there, moves those
  -- behind it up by one, returns what `sem_post` gives, and keeps the array well formed.
  pub add-IsList :
      (post_ok : Bool) (realloc_ok : ℕ → Bool) (l : ArrayList A) (ys zs : List A) (e : A)
      → IsList l (ys ++ zs)
      → ((n : ℕ) → realloc_ok n ≡ true)
      → (l' : ArrayList A) × (add true post_ok realloc_ok (pos (length ys)) (some e) l
          ≡ some (status post_ok (pos 0), l'))
        × IsList l' (ys ++ (e ∷ zs))
  unfolding add
  add-IsList post_ok realloc_ok l ys zs e is all =
      let ((b, g), grow, r) = ensure_capacity-Grown realloc_ok (l.size + 1) l (ys ++ zs) is in
      let b_true : b ≡ true = r.success all in
      let (l', ins, is') =
        insert-IsList g ys zs e r.same.tail r.same refl
          (omega (arith, r.room b_true, is.size_length)) in
      let fits : ltb_ℤ (pos l.size) (pos (length ys)) ≡ false =
        ground (arith, is.size_length, length-append {ℓ} ys zs) in
      (l', rw (fits, grow, b_true, ins), is')
