-- ===== src/Base/Decimal.antt =====
-- `%d` of the fmt package: decimal digits, most significant first, with a sign where negative.
use Prim.Native.Nat.{ℕ, zero, suc, ◌+◌, ◌/◌, ◌%◌}
use mathlib.Core.Path.{◌≡◌, refl}
use mathlib.Core.List.{[], ◌∷◌}
use causalclock.Base.Tests.{ltb, if◌then◌else◌}
use causalclock.Base.Strings.{Str}
use causalclock.Base.Int.{ℤ, pos, negsuc}

-- The digits of `n` in front of `rest`; the fuel bounds the number of digits.
unfoldable pub digits_onto : ℕ → ℕ → Str → Str
digits_onto zero n rest = (48 + n % 10) ∷ rest
digits_onto (suc f) n rest =
    let more = digits_onto f (n / 10) ((48 + n % 10) ∷ rest) in
    if ltb n 10 then (48 + n) ∷ rest else more

-- Twenty digits hold every 64-bit number.
unfoldable pub print_ℕ : ℕ → Str
unfolding digits_onto
print_ℕ n = digits_onto 19 n []

unfoldable pub print_ℤ : ℤ → Str
unfolding print_ℕ
print_ℤ (pos n) = print_ℕ n
print_ℤ (negsuc n) = b'-' ∷ print_ℕ (n + 1)

print_407 : print_ℕ 407 ≡ b'4' ∷ b'0' ∷ b'7' ∷ []
unfolding print_ℕ
print_407 = refl
