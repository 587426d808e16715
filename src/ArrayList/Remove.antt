-- ===== src/ArrayList/Remove.antt =====
-- Taking an element out, and reading one.
use cse344_coursework.Base.{
  ℕ, suc, ◌+◌, ◌-◌, ◌<◌, ◌≡◌, refl, ap, ◌∙◌, sym, Bool, true, pos, ltb_ℤ, Option, some, List, [],
  ◌∷◌, ◌++◌, map, length, drop, get_elem?, length-append, append_assoc, arith,
}
use mathlib.Core.List.{map-append}
use cse344_coursework.ArrayList.{ArrayList, status, remove, get}
use cse344_coursework.ArrayList.Moves.{shift_down, length-drop_tail}
use cse344_coursework.ArrayList.Contents.{IsList, parts, to_parts, memmove-moved, length-map-some}

module _ {ℓ} {A : Type ℓ} where
  remove-parts :
      (post_ok : Bool) (p z t : List (Option A)) (s : Option A) (size capacity : ℕ)
      → size ≡ length p + suc (length z)
      → remove true post_ok (pos (length p)) (parts p (s ∷ z) t size capacity)
        ≡ some
            (status post_ok (pos 0), parts p z (drop (length z) (s ∷ (z ++ t))) (size - 1) capacity)
  unfolding remove
  remove-parts post_ok p z t s size capacity h =
      let n : size - suc (length p) ≡ length z = omega arith in
      let k : length p + 1 ≡ suc (length p) = omega arith in
      let inside : ltb_ℤ (pos (length p)) (pos size) ≡ true = ground arith in
      let all = length-append {ℓ} p (s ∷ (z ++ t)) in
      let rest = length-append {ℓ} z t in
      rw (
        inside,
        k,
        n,
        memmove-moved (p ++ (s ∷ (z ++ t))) (length p) (suc (length p)) (length z)
            (omega (arith, all, rest)) (omega (arith, all, rest)),
        shift_down p z t s,
      )

  -- Removing an element inside the list moves those behind it down by one, returns what `sem_post`
  -- gives, and keeps the array well formed.
  pub remove-IsList :
      (post_ok : Bool) (l : ArrayList A) (ys zs : List A) (e : A)
      → IsList l (ys ++ (e ∷ zs))
      → (l' : ArrayList A) × (remove true post_ok (pos (length ys)) l
          ≡ some (status post_ok (pos 0), l'))
        × IsList l' (ys ++ zs)
  remove-IsList post_ok l ys zs e is =
      let p = map some ys in
      let z = map some zs in
      let form = to_parts l ys (e ∷ zs) is in
      let sizes : l.size ≡ length p + suc (length z) = omega (
        arith,
        is.size_length,
        length-append {ℓ} ys (e ∷ zs),
        length-map-some ys,
        length-map-some zs,
      ) in
      (
        parts p z (drop (length z) (some e ∷ (z ++ is.tail))) (l.size - 1) l.capacity,
        ap (λ n. remove true post_ok (pos n) l) (sym (length-map-some ys))
            ∙ ap (remove true post_ok (pos (length p))) form
            ∙ remove-parts post_ok p z is.tail (some e) l.size l.capacity sizes,
        record {
          tail = drop (length z) (some e ∷ (z ++ is.tail));
          slots = sym (
              ap (λ x. x ++ drop (length z) (some e ∷ (z ++ is.tail))) (map-append some ys zs)
              ∙ append_assoc p z (drop (length z) (some e ∷ (z ++ is.tail))));
          size_length =
              omega (arith, is.size_length, length-append {ℓ} ys zs, length-append {ℓ} ys (e ∷ zs));
          capacity_length =
              is.capacity_length
              ∙ ap (λ (x : ArrayList A). length x.arr) form
              ∙ omega (
                arith,
                length-append {ℓ} p (some e ∷ (z ++ is.tail)),
                length-append {ℓ} z is.tail,
                length-append {ℓ} p (z ++ drop (length z) (some e ∷ (z ++ is.tail))),
                length-append {ℓ} z (drop (length z) (some e ∷ (z ++ is.tail))),
                length-drop_tail z is.tail (some e),
              );
          capacity_pos = is.capacity_pos;
        },
      )

  get_elem?-parts :
      (p t : List (Option A)) (s : Option A) → get_elem? (p ++ (s ∷ t)) (length p) ≡ some s
  get_elem?-parts [] t s = refl
  get_elem?-parts (x ∷ p) t s = get_elem?-parts p t s

  get-slot :
      (l : ArrayList A) (i : ℕ) (e : A)
      → i < l.size
      → get_elem? l.arr i ≡ some (some e)
      → get true (pos i) l ≡ some (some e)
  unfolding get
  get-slot l i e h at =
      let inside : ltb_ℤ (pos i) (pos l.size) ≡ true = ground arith in rw (inside, at)

  -- Reading at an index inside the list writes the element there.
  pub get-IsList :
      (l : ArrayList A) (ys zs : List A) (e : A)
      → IsList l (ys ++ (e ∷ zs))
      → get true (pos (length ys)) l ≡ some (some e)
  get-IsList l ys zs e is =
      let form = to_parts l ys (e ∷ zs) is in
      get-slot l (length ys) e (omega (arith, is.size_length, length-append {ℓ} ys (e ∷ zs))) (
        ap (λ (x : ArrayList A). get_elem? x.arr (length ys)) form
        ∙ ap (get_elem? (map some ys ++ (some e ∷ (map some zs ++ is.tail))))
            (sym (length-map-some ys))
        ∙ get_elem?-parts (map some ys) (map some zs ++ is.tail) (some e))
