-- ===== src/Base/Quote/Separators.antt =====
-- The two line separators in UTF-8.
use causalclock.Base.Quote.{is_separator}
use Prim.Native.Nat.{ℕ, ◌≤◌}
use mathlib.Core.Path.{◌≡◌, refl}
use mathlib.Core.Bool.{true, false}
use mathlib.Core.Logic.{◌⊎◌}
use mathlib.Core.List.{[], ◌∷◌}
use native.Mathlib.Omega.{arith}
use causalclock.Base.Strings.{Str}
use causalclock.Base.Runes.{decode_rune, decode_two, decode_three, decode_four}

two_separator : (p : ℕ) (s : Str) → 0xc2 ≤ p → p ≤ 0xdf → is_separator (decode_two p s).0 ≡ false
unfolding decode_two
two_separator p [] h k = refl
two_separator p (c ∷ s) h k = ground arith

four_separator : (p : ℕ) (s : Str) → 0xf0 ≤ p → p ≤ 0xf4 → is_separator (decode_four p s).0 ≡ false
unfolding decode_four
four_separator p [] h k = refl
four_separator p (c ∷ []) h k = refl
four_separator p (c ∷ (d ∷ [])) h k = refl
four_separator p (c ∷ (d ∷ (e ∷ s))) h k = ground arith

three_separator :
    (p c d : ℕ) (s : Str)
    → 0xe0 ≤ p
    → p ≤ 0xef
    → is_separator (decode_three p (c ∷ d ∷ s)).0 ≡ true
    → (p ≡ 0xe2) × (c ≡ 0x80) × ((d ≡ 0xa8) ⊎ (d ≡ 0xa9))
unfolding decode_three
three_separator p c d s h k e = ground arith

three_bytes :
    (b : ℕ) (s : Str)
    → 0xe0 ≤ b
    → b ≤ 0xef
    → is_separator (decode_three b s).0 ≡ true
    → (d : ℕ) × (t : Str) × (s ≡ 0x80 ∷ d ∷ t) × (b ≡ 0xe2) × ((d ≡ 0xa8) ⊎ (d ≡ 0xa9))
unfolding decode_three
three_bytes b [] low high e = absurd (ground arith)
three_bytes b (c ∷ []) low high e = absurd (ground arith)
three_bytes b (c ∷ (d ∷ s)) low high e =
    let (p, q, r) = three_separator b c d s low high e in (d, s, rw q refl, p, r)

decode_of_separator :
    (b : ℕ) (s : Str)
    → 128 ≤ b
    → is_separator (decode_rune b s).0 ≡ true
    → (0xe0 ≤ b) × (b ≤ 0xef) × (decode_rune b s ≡ decode_three b s)
unfolding decode_rune
decode_of_separator b s h e = ground (arith, two_separator b s, four_separator b s)

-- The three bytes of a line separator.
pub rune_separator :
    (b : ℕ) (s : Str)
    → 128 ≤ b
    → is_separator (decode_rune b s).0 ≡ true
    → (d : ℕ) × (t : Str) × (s ≡ 0x80 ∷ d ∷ t) × (b ≡ 0xe2) × ((d ≡ 0xa8) ⊎ (d ≡ 0xa9))
rune_separator b s h e =
    let (low, high, same) = decode_of_separator b s h e in three_bytes b s low high (rw same at e)
