-- ===== src/ArrayList/Moves.antt =====
-- `memmove` on a list of slots, by the pieces that the list is made of.
use cse344_coursework.Base.{
  ℕ, zero, suc, ◌+◌, ◌≡◌, refl, ap, ◌∙◌, List, [], ◌∷◌, ◌++◌, length, take, drop, set, arith,
}

module _ {ℓ} {B : Type ℓ} where
  pub take-append : (p q : List B) → take (length p) (p ++ q) ≡ p
  take-append [] q = refl
  take-append (x ∷ p) q = ap (λ t. x ∷ t) (take-append p q)

  pub drop-append : (p q : List B) → drop (length p) (p ++ q) ≡ q
  drop-append [] q = refl
  drop-append (x ∷ p) q = drop-append p q

  drop-append_one : (p q : List B) (x : B) → drop (suc (length p)) (p ++ (x ∷ q)) ≡ q
  drop-append_one [] q x = refl
  drop-append_one (y ∷ p) q x = drop-append_one p q x

  set-take_one : (z t r : List B) (s e : B) → set (take 1 (z ++ (s ∷ t)) ++ r) 0 e ≡ e ∷ r
  set-take_one [] t r s e = refl
  set-take_one (x ∷ z) t r s e = refl

  -- What `memmove(dest, source, n)` leaves.
  abbrev pub moved : List B → (dest source n : ℕ) → List B
  moved arr dest source n = take dest arr ++ (take n (drop source arr) ++ drop (dest + n) arr)

  -- Room is made for one element behind `p`; what stands there is written over.
  shift_up_at :
      (p z t : List B) (s e : B) (n : ℕ)
      → n ≡ length p + length z
      → set
          (take (suc (length p)) (p ++ (z ++ (s ∷ t)))
            ++ (take (length z) (drop (length p) (p ++ (z ++ (s ∷ t))))
                ++ drop (suc n) (p ++ (z ++ (s ∷ t)))))
          (length p)
          e
        ≡ p ++ (e ∷ (z ++ t))
  shift_up_at [] z t s e n h =
      let h' : n ≡ length z = omega arith in
      set-take_one z t _ s e ∙ rw (h', take-append z (s ∷ t), drop-append_one z t s)
  shift_up_at (x ∷ p) z t s e zero h = absurd (omega arith)
  shift_up_at (x ∷ p) z t s e (suc n) h = ap (λ l. x ∷ l) (shift_up_at p z t s e n (omega arith))

  pub shift_up :
      (p z t : List B) (s e : B)
      → set (moved (p ++ (z ++ (s ∷ t))) (suc (length p)) (length p) (length z)) (length p) e
        ≡ p ++ (e ∷ (z ++ t))
  shift_up p z t s e =
      let h : suc (length p) + length z ≡ suc (length p + length z) = omega arith in
      rw h (shift_up_at p z t s e (length p + length z) refl)

  -- The element behind `p` is written over; one slot is left behind `z`.
  shift_down_at :
      (p z t : List B) (x : B) (n : ℕ)
      → n ≡ length p + length z
      → take (length p) (p ++ (x ∷ (z ++ t)))
          ++ (take (length z) (drop (suc (length p)) (p ++ (x ∷ (z ++ t))))
              ++ drop n (p ++ (x ∷ (z ++ t))))
        ≡ p ++ (z ++ drop (length z) (x ∷ (z ++ t)))
  shift_down_at [] z t x n h = let h' : n ≡ length z = omega arith in rw (h', take-append z t)
  shift_down_at (y ∷ p) z t x zero h = absurd (omega arith)
  shift_down_at (y ∷ p) z t x (suc n) h = ap (λ l. y ∷ l) (shift_down_at p z t x n (omega arith))

  pub shift_down :
      (p z t : List B) (x : B)
      → moved (p ++ (x ∷ (z ++ t))) (length p) (suc (length p)) (length z)
        ≡ p ++ (z ++ drop (length z) (x ∷ (z ++ t)))
  shift_down p z t x = shift_down_at p z t x (length p + length z) refl

  pub length-drop_tail :
      (z t : List B) (x : B) → length (drop (length z) (x ∷ (z ++ t))) ≡ suc (length t)
  length-drop_tail [] t x = refl
  length-drop_tail (y ∷ z) t x = length-drop_tail z t y
