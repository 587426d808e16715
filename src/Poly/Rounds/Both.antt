-- ===== src/Poly/Rounds/Both.antt =====
-- Both rounds of the children, and the errors that the parent prints (childRound and calcErrPrint of
-- HWs/HW2/lib.c, as main of HWs/HW2/main.c calls them).
use cse344_coursework.Base.{◌+◌, ◌<◌, ◌≡◌, All, some, List, [], ◌∷◌, ◌++◌, ◌≢◌, Bytes, length}
use cse344_coursework.Poly.{Arithmetic, max_line}
use cse344_coursework.Poly.Rounds.{l_value}

module _ {D : Type 0} (A : Arithmetic D) (scan : Bytes → List D) (print : D → Bytes) where
  -- A row of eight pairs, with room for the values of its child's two rounds. `rounded` is what a number
  -- is after `print`: sscanf finds the values behind the commas, and the numbers before as they were.
  pub record IsPairs (rounded : D → D) (line : Bytes) : Type 0 where
    pub one_line : All (λ x. x ≢ b'\n') line
    pub numbers : length (scan line) ≡ 16
    pub fits :
        {v w : D}
        → l_value A scan print 1 line ≡ some v
        → l_value A scan print 2 line ≡ some w
        → length line + length (print v) + length (print w) + 3 < max_line
    pub appended :
        {v : D}
        → l_value A scan print 1 line ≡ some v
        → scan (line ++ (b',' ∷ print v)) ≡ scan line ++ (rounded v ∷ [])
    pub appended_again :
        {v w : D}
        → l_value A scan print 1 line ≡ some v
        → l_value A scan print 2 line ≡ some w
        → scan ((line ++ (b',' ∷ print v)) ++ (b',' ∷ print w))
          ≡ scan (line ++ (b',' ∷ print v)) ++ (rounded w ∷ [])
