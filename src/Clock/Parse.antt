-- ===== src/Clock/Parse.antt =====
-- `ParseClock` of `clock/clock.go`.
pub mod Pairs
pub mod RoundTrip
pub mod Numeral
pub mod Sound
pub mod Lenient
use causalclock.Base.{
  ◌==◌, ◌||◌, ◌-◌, Str, str_eq, some, none, List, [], ◌∷◌, length, ◌&&◌, not, if◌then◌else◌,
}
use causalclock.Base.Scan.{scan_int}
use causalclock.Base.Slices.{slice}
use causalclock.Base.Text.{trim_space, split, has_prefix, has_suffix}
use causalclock.Clock.Types.{Clock}
use causalclock.Counter.{int64}
use causalclock.Counters.Defs.{new, set}

-- The errors of `ParseClock`, with the text or the node that the message names.
pub data ParseError : Type 0 where
  err_not_braced err_invalid_pair err_invalid_value : Str → ParseError

pub data Result {ℓ} (A : Type ℓ) : Type ℓ where
  ok : A → Result A
  err : ParseError → Result A

infixl 5 ◌>>=◌
abbrev pub ◌>>=◌ {ℓ κ} : {A : Type ℓ} {B : Type κ} → Result A → (A → Result B) → Result B
ok a >>= f = f a
err e >>= f = err e

-- `len(parts) != 2`, and past it the node, the value and `Set`.
unfoldable pub set_parts : Clock → Str → List Str → Result Clock
unfolding trim_space scan_int
set_parts c pair (key ∷ (text ∷ [])) = elim (scan_int (trim_space text)) [
  | none ↦ err (err_invalid_value (trim_space key))
  | some value ↦ ok (set int64 c (trim_space key) value)
]
set_parts c pair _ = err (err_invalid_pair pair)

-- The loop over the pairs.
unfoldable pub parse_loop : Clock → List Str → Result Clock
unfolding set_parts trim_space split
parse_loop c [] = ok c
parse_loop c (pair ∷ pairs) = do
  c' ← set_parts c (trim_space pair) (split b':' (trim_space pair))
  parse_loop c' pairs

-- `ParseClock` past the first `TrimSpace`; `s[1 : len(s)-1]` has both braces to cut, since a
-- single byte is not both.
unfoldable pub parse_trimmed : Str → Result Clock
unfolding parse_loop has_suffix slice split
parse_trimmed s =
    let body = slice s 1 (length s - 1) in
    if str_eq s (b'{' ∷ b'}' ∷ [])
    then ok (new int64 [])
    else if not (has_prefix b'{' s) || not (has_suffix b'}' s)
    then err (err_not_braced s)
    else if length body == 0
    then ok (new int64 [])
    else parse_loop (new int64 []) (split b',' body)

-- `ParseClock`
unfoldable pub parse_clock : Str → Result Clock
unfolding parse_trimmed trim_space
parse_clock s = parse_trimmed (trim_space s)
