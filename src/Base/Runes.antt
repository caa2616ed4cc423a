-- ===== src/Base/Runes.antt =====
-- `for _, r := range s` over a Go string: UTF-8 decoding, rune by rune. A byte that begins no
-- well-formed sequence counts as the rune U+FFFD of width 1.
use Prim.Native.Nat.{ℕ, zero, suc, ◌+◌, ◌-◌, ◌*◌, ◌%◌, ◌≤◌, ◌<◌}
use mathlib.Core.Path.{◌≡◌, refl}
use mathlib.Core.Logic.{inl, inr}
use mathlib.Core.Bool.{Bool, false, ◌&&◌, ◌||◌}
use mathlib.Core.List.{[], ◌∷◌}
use native.Mathlib.Omega.{arith}
use causalclock.Base.Tests.{ltb, leb, ltb→lt, Bool-cases, ◌==◌, if◌then◌else◌}
use causalclock.Base.Lists.{any}
use causalclock.Base.Strings.{Str}

abbrev pub rune_error : ℕ
rune_error = 0xfffd

-- `lo <= b <= hi`
abbrev within : ℕ → ℕ → ℕ → Bool
within lo hi b = leb lo b && leb b hi

-- The second byte that may follow the first: the narrower ranges exclude overlong forms,
-- surrogates and runes past U+10FFFF.
abbrev second_ok : ℕ → ℕ → Bool
second_ok p b =
    if p == 0xe0
    then within 0xa0 0xbf b
    else if p == 0xed
    then within 0x80 0x9f b
    else if p == 0xf0
    then within 0x90 0xbf b
    else if p == 0xf4
    then within 0x80 0x8f b
    else within 0x80 0xbf b

abbrev tail_ok : ℕ → Bool
tail_ok b = within 0x80 0xbf b

-- The rune and its width in bytes, from the first byte and those behind it.
unfoldable pub decode_two : ℕ → Str → ℕ × ℕ
decode_two p (b ∷ _) = if second_ok p b then (p % 32 * 64 + b % 64, 2) else (rune_error, 1)
decode_two p [] = (rune_error, 1)

unfoldable pub decode_three : ℕ → Str → ℕ × ℕ
decode_three p (b ∷ (c ∷ _)) =
    if second_ok p b && tail_ok c
    then (p % 16 * 4096 + b % 64 * 64 + c % 64, 3)
    else (rune_error, 1)
decode_three p _ = (rune_error, 1)

unfoldable pub decode_four : ℕ → Str → ℕ × ℕ
decode_four p (b ∷ (c ∷ (d ∷ _))) =
    if second_ok p b && (tail_ok c && tail_ok d)
    then (p % 8 * 262144 + b % 64 * 4096 + c % 64 * 64 + d % 64, 4)
    else (rune_error, 1)
decode_four p _ = (rune_error, 1)

unfoldable pub decode_rune : ℕ → Str → ℕ × ℕ
unfolding decode_two decode_three decode_four
decode_rune p rest =
    if ltb p 0x80
    then (p, 1)
    else if within 0xc2 0xdf p
    then decode_two p rest
    else if within 0xe0 0xef p
    then decode_three p rest
    else if within 0xf0 0xf4 p
    then decode_four p rest
    else (rune_error, 1)

module _ (test : ℕ → Bool) where
  -- Whether the test holds of a rune; `skip` bytes belong to the rune before.
  unfoldable pub any_rune_from : ℕ → Str → Bool
  any_rune_from skip [] = false
  any_rune_from (suc skip) (b ∷ s) = any_rune_from skip s
  any_rune_from zero (b ∷ s) = test (decode_rune b s).0 || any_rune_from ((decode_rune b s).1 - 1) s

  unfoldable pub any_rune : Str → Bool
  unfolding any_rune_from decode_rune
  any_rune s = any_rune_from 0 s

-- The next bytes are no ASCII characters.
abbrev pub Skips : ℕ → Str → Type 0
Skips zero s = Unit
Skips (suc n) [] = Unit
Skips (suc n) (b ∷ s) = (128 ≤ b) × Skips n s

two_shape :
    (p : ℕ) (rest : Str)
    → 0xc2 ≤ p
    → p ≤ 0xdf
    → (128 ≤ (decode_two p rest).0) × Skips ((decode_two p rest).1 - 1) rest
unfolding decode_two
two_shape p [] h k = omega arith
two_shape p (b ∷ s) h k = ground arith

three_shape :
    (p : ℕ) (rest : Str)
    → 0xe0 ≤ p
    → p ≤ 0xef
    → (128 ≤ (decode_three p rest).0) × Skips ((decode_three p rest).1 - 1) rest
unfolding decode_three
three_shape p [] h k = omega arith
three_shape p (b ∷ []) h k = omega arith
three_shape p (b ∷ (c ∷ s)) h k = ground arith

four_shape :
    (p : ℕ) (rest : Str)
    → 0xf0 ≤ p
    → p ≤ 0xf4
    → (128 ≤ (decode_four p rest).0) × Skips ((decode_four p rest).1 - 1) rest
unfolding decode_four
four_shape p [] h k = omega arith
four_shape p (b ∷ []) h k = omega arith
four_shape p (b ∷ (c ∷ [])) h k = omega arith
four_shape p (b ∷ (c ∷ (d ∷ s))) h k = ground arith

-- A byte past ASCII starts a rune past ASCII, none of whose bytes is an ASCII character.
pub rune_shape :
    (p : ℕ) (rest : Str)
    → 128 ≤ p
    → (128 ≤ (decode_rune p rest).0) × Skips ((decode_rune p rest).1 - 1) rest
unfolding decode_rune
rune_shape p rest h = ground (arith, two_shape p rest, three_shape p rest, four_shape p rest)

pub decode_ascii : (p : ℕ) (rest : Str) → p < 128 → decode_rune p rest ≡ (p, 1)
unfolding decode_rune
decode_ascii p rest h = ground arith

-- A test that holds of ASCII characters alone may be made byte by byte.
pub any_rune-any :
    (test : ℕ → Bool) (skip : ℕ) (s : Str)
    → ((r : ℕ) → 128 ≤ r → test r ≡ false)
    → Skips skip s
    → any_rune_from test skip s ≡ any test s
unfolding any_rune_from
any_rune-any test zero [] h k = refl
any_rune-any test (suc skip) [] h k = refl
any_rune-any test (suc skip) (b ∷ s) h k = ground (arith, h b, any_rune-any test skip s h k.1)
any_rune-any test zero (b ∷ s) h k = elim (Bool-cases (ltb b 128)) [
  | inl e ↦ rw (decode_ascii b s (ltb→lt b 128 e)) (ground (arith, any_rune-any test 0 s h tt))
  | inr e ↦
      let shape = rune_shape b s (ground arith) in
      ground (
        arith,
        h b,
        h (decode_rune b s).0 shape.0,
        any_rune-any test ((decode_rune b s).1 - 1) s h shape.1,
      )
]
