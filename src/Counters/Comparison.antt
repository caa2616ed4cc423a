-- ===== src/Counters/Comparison.antt =====
-- `clock.Comparison`, the four answers of a comparison.
use causalclock.Base.{Str, Bool, true, false, [], ◌∷◌}

pub data Comparison : Type 0 where
  concurrent_cmp before_cmp after_cmp equal_cmp : Comparison

-- `Comparison.String`, for the four constants.
unfoldable pub comparison_string : Comparison → Str
comparison_string concurrent_cmp =
    b'C' ∷ b'o' ∷ b'n' ∷ b'c' ∷ b'u' ∷ b'r' ∷ b'r' ∷ b'e' ∷ b'n' ∷ b't' ∷ []
comparison_string before_cmp = b'B' ∷ b'e' ∷ b'f' ∷ b'o' ∷ b'r' ∷ b'e' ∷ []
comparison_string after_cmp = b'A' ∷ b'f' ∷ b't' ∷ b'e' ∷ b'r' ∷ []
comparison_string equal_cmp = b'E' ∷ b'q' ∷ b'u' ∷ b'a' ∷ b'l' ∷ []

-- `==` on comparisons.
abbrev pub cmp_eq : Comparison → Comparison → Bool
cmp_eq concurrent_cmp concurrent_cmp = true
cmp_eq before_cmp before_cmp = true
cmp_eq after_cmp after_cmp = true
cmp_eq equal_cmp equal_cmp = true
cmp_eq _ _ = false

-- The answer with the two sides exchanged.
unfoldable pub flip : Comparison → Comparison
flip concurrent_cmp = concurrent_cmp
flip before_cmp = after_cmp
flip after_cmp = before_cmp
flip equal_cmp = equal_cmp

-- The answer from two facts: the first side is greater somewhere, and it is less somewhere.
unfoldable pub classify : Bool → Bool → Comparison
classify true true = concurrent_cmp
classify true false = after_cmp
classify false true = before_cmp
classify false false = equal_cmp
