-- ===== src/Base/StrOrder.antt =====
-- `<` on Go strings is a strict total order.
use mathlib.Core.Path.{◌≡◌, refl}
use mathlib.Core.Bool.{true, false}
use mathlib.Core.List.{[], ◌∷◌}
use native.Mathlib.Omega.{arith}
use causalclock.Base.Strings.{Str, str_eq, str_ltb}

pub str_ltb_irrefl : (s : Str) → str_ltb s s ≡ false
unfolding str_ltb
str_ltb_irrefl [] = refl
str_ltb_irrefl (a ∷ s) = ground (arith, str_ltb_irrefl s)

pub str_ltb_trans : (s t u : Str) → str_ltb s t ≡ true → str_ltb t u ≡ true → str_ltb s u ≡ true
unfolding str_ltb
str_ltb_trans [] [] u h k = ground arith
str_ltb_trans [] (b ∷ t) [] h k = ground arith
str_ltb_trans [] (b ∷ t) (c ∷ u) h k = refl
str_ltb_trans (a ∷ s) [] u h k = ground arith
str_ltb_trans (a ∷ s) (b ∷ t) [] h k = ground arith
str_ltb_trans (a ∷ s) (b ∷ t) (c ∷ u) h k = ground (arith, str_ltb_trans s t u)

-- Of two strings that differ, one is smaller.
pub str_ltb_total : (s t : Str) → str_eq s t ≡ false → str_ltb s t ≡ false → str_ltb t s ≡ true
unfolding str_ltb str_eq
str_ltb_total [] [] h k = ground arith
str_ltb_total [] (b ∷ t) h k = ground arith
str_ltb_total (a ∷ s) [] h k = refl
str_ltb_total (a ∷ s) (b ∷ t) h k = ground (arith, str_ltb_total s t)
