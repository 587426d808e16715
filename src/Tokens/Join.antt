-- ===== src/Tokens/Join.antt =====
-- What the words of a text are, independently of the loop: they hold no delimiter, together they
-- hold all else in order, and writing words with delimiters between them and splitting is the identity.
use cse344_coursework.Base.{
  ℕ, ◌≡◌, refl, ◌≢◌, ap, All, Bool, true, false, ◌||◌, some, List, [], ◌∷◌, ◌++◌, ◌==◌, ==_iff,
  if◌then◌else◌, Bool-cases, Bytes, append-nil, append_assoc, ◌∙◌, sym, inl, inr,
}
use cse344_coursework.Tokens.{split2, split}
use cse344_coursework.Tokens.Runs.{runs, close, split2-runs, split-runs}

-- A word: not empty, without NUL and delimiters.
pub record IsWord (delim : ℕ → Bool) (w : Bytes) : Type 0 where
  pub ne_nil : w ≢ []
  pub plain : All (λ x. delim x ≡ false) w

abbrev pub concat : List Bytes → Bytes
concat [] = []
concat (w ∷ ws) = w ++ concat ws

abbrev pub without : (ℕ → Bool) → Bytes → Bytes
without delim [] = []
without delim (x ∷ s) = if delim x then without delim s else x ∷ without delim s

-- Each word with a delimiter behind it.
abbrev pub terminated : ℕ → List Bytes → Bytes
terminated d [] = []
terminated d (w ∷ ws) = w ++ (d ∷ terminated d ws)

module _ (delim : ℕ → Bool) where
  close-IsWord :
      (cur : Bytes) (ws : List Bytes)
      → All (λ x. delim x ≡ false) cur
      → All (IsWord delim) ws
      → All (IsWord delim) (close cur ws)
  close-IsWord [] ws h hs = hs
  close-IsWord (x ∷ cur) ws h hs = (record { ne_nil = λ e. cc; plain = h }, hs)

  All-append_one :
      (x : ℕ) (q : Bytes)
      → All (λ y. delim y ≡ false) q
      → delim x ≡ false
      → All (λ y. delim y ≡ false) (q ++ (x ∷ []))
  All-append_one x [] h hx = (hx, tt)
  All-append_one x (y ∷ q) (h, hs) hx = (h, All-append_one x q hs hx)

  pub runs-IsWord :
      (cur str : Bytes) → All (λ x. delim x ≡ false) cur → All (IsWord delim) (runs delim cur str)
  unfolding runs
  runs-IsWord cur [] h = close-IsWord cur [] h tt
  runs-IsWord cur (x ∷ str) h = elim (Bool-cases (delim x)) [
    | inl d ↦ rw d (close-IsWord cur _ h (runs-IsWord [] str tt))
    | inr n ↦ rw n (runs-IsWord (cur ++ (x ∷ [])) str (All-append_one x cur h n))
  ]

  concat-close : (cur : Bytes) (ws : List Bytes) → concat (close cur ws) ≡ cur ++ concat ws
  concat-close [] ws = refl
  concat-close (x ∷ cur) ws = refl

  pub concat-runs : (cur str : Bytes) → concat (runs delim cur str) ≡ cur ++ without delim str
  unfolding runs
  concat-runs cur [] = concat-close cur []
  concat-runs cur (x ∷ str) = elim (Bool-cases (delim x)) [
    | inl d ↦ rw d (concat-close cur _ ∙ ap (λ t. cur ++ t) (concat-runs [] str))
    | inr n ↦ rw n (concat-runs (cur ++ (x ∷ [])) str ∙ append_assoc cur (x ∷ []) _)
  ]

  runs-plain :
      (w cur str : Bytes)
      → All (λ x. delim x ≡ false) w
      → runs delim cur (w ++ str) ≡ runs delim (cur ++ w) str
  unfolding runs
  runs-plain [] cur str h = rw append-nil
  runs-plain (x ∷ w) cur str (h, hs) =
      rw h (runs-plain w (cur ++ (x ∷ [])) str hs ∙ rw append_assoc)

  close-word : (w : Bytes) (ws : List Bytes) → w ≢ [] → close w ws ≡ w ∷ ws
  close-word [] ws ne = absurd (ne refl)
  close-word (x ∷ w) ws ne = refl

  pub runs-terminated :
      (d : ℕ) (ws : List Bytes)
      → delim d ≡ true
      → All (IsWord delim) ws
      → runs delim [] (terminated d ws) ≡ ws
  unfolding runs
  runs-terminated d [] hd h = refl
  runs-terminated d (w ∷ ws) hd (h, hs) =
      runs-plain w [] (d ∷ terminated d ws) h.plain
      ∙ rw hd (close-word w _ h.ne_nil ∙ ap (λ t. w ∷ t) (runs-terminated d ws hd hs))

  pub runs-append_word :
      (d : ℕ) (ws : List Bytes) (w : Bytes)
      → delim d ≡ true
      → All (IsWord delim) ws
      → IsWord delim w
      → runs delim [] (terminated d ws ++ w) ≡ ws ++ (w ∷ [])
  unfolding runs
  runs-append_word d [] w hd h hw =
      ap (runs delim []) (sym (append-nil w))
      ∙ runs-plain w [] [] hw.plain
      ∙ close-word w [] hw.ne_nil
  runs-append_word d (v ∷ ws) w hd (h, hs) hw =
      ap (runs delim []) (append_assoc v (d ∷ terminated d ws) w)
      ∙ runs-plain v [] (d ∷ (terminated d ws ++ w)) h.plain
      ∙ rw hd (close-word v _ h.ne_nil ∙ ap (λ t. v ∷ t) (runs-append_word d ws w hd hs hw))

-- `split2` of any text without a NUL: every token is a nonempty text without `c` and `opt`, and the
-- tokens in a row are the text less its delimiters.
pub split2_sound :
    (str : Bytes) (c opt : ℕ)
    → All (λ x. x ≢ 0) str
    → (ts : List Bytes) × (split2 (some str) c opt ≡ some ts)
      × All (IsWord (λ x. (x == c) || (x == opt))) ts
      × (concat ts ≡ without (λ x. (x == c) || (x == opt)) str)
split2_sound str c opt h =
    (runs _ [] str, split2-runs str c opt h, runs-IsWord _ [] str tt, concat-runs _ [] str)

NoNul-terminated :
    (d : ℕ) (ws : List Bytes)
    → d ≢ 0
    → All (All (λ x. x ≢ 0)) ws
    → (w : Bytes) → All (λ x. x ≢ 0) w
    → All (λ x. x ≢ 0) (terminated d ws ++ w)
NoNul-terminated d [] hd h w hw = hw
NoNul-terminated d ([] ∷ ws) hd (h, hs) w hw = (hd, NoNul-terminated d ws hd hs w hw)
NoNul-terminated d ((x ∷ v) ∷ ws) hd ((hx, hv), hs) w hw =
    (hx, NoNul-terminated d (v ∷ ws) hd (hv, hs) w hw)

-- Words written with `c` between them are what `split` reads back, whatever the words are, if none
-- is empty and none holds `c` or a NUL.
pub split-terminated :
    (c : ℕ) (ws : List Bytes) (w : Bytes)
    → c ≢ 0
    → All (All (λ x. x ≢ 0)) ws
    → All (λ x. x ≢ 0) w
    → All (IsWord (λ x. x == c)) ws
    → IsWord (λ x. x == c) w
    → split (some (terminated c ws ++ w)) c ≡ some (ws ++ (w ∷ []))
split-terminated c ws w ne hz hzw h hw =
    split-runs _ c (NoNul-terminated c ws ne hz w hzw)
    ∙ ap some (runs-append_word (λ x. x == c) c ws w ((==_iff c c).1 refl) h hw)
