-- ===== src/Tests/Parsing.antt =====
-- `ParseClock` on texts, printed and not.
use causalclock.Base.{
  ℕ, ◌≤◌, ◌<◌, insert, value_at, Bool-cases, inl, inr, str_eq, str_eq_iff, Str, pos, negsuc,
  is_int64, true, some, [], ◌∷◌, ◌++◌, keys, lookup, ◌≡◌, refl, arith,
}
use causalclock.Counters.Members.{has}
use causalclock.Base.Text.{trim_space, split, front_width, back_width}
use causalclock.Base.Scan.{scan_int}
use causalclock.Base.Slices.{slice}
use causalclock.Base.Decimal.{print_ℤ}
use causalclock.Clock.Parse.{ok, err, err_not_braced, parse_clock}
use causalclock.Clock.Parse.Lenient.{IsJunk, parse_clock-junk}
use causalclock.Clock.Parse.Pairs.{IsPlain}
use causalclock.Clock.Parse.RoundTrip.{parse_clock-string}
use causalclock.Clock.Parse.Sound.{IsRead, parse_clock-IsRead}
use causalclock.Clock.Types.{Clock}
use causalclock.Counter.{int64}
use causalclock.Counters.Defs.{new, set, get, made}
use causalclock.Counters.Listing.{nodes, string}
use causalclock.Tests.Data.{node_a, node_b, clock_ba, IsValid-ba}

-- " {a:2, b:-1}\n"
abbrev spaced : Str
spaced =
    b' ' ∷ b'{' ∷ b'a' ∷ b':' ∷ b'2' ∷ b',' ∷ b' ' ∷ b'b' ∷ b':' ∷ b'-' ∷ b'1' ∷ b'}' ∷ b'\n' ∷ []

program : Unit {0}
unfolding parse_clock trim_space split scan_int slice str_eq set new insert print_ℤ front_width
    back_width lookup value_at get string nodes
program = tt

parsed :
    parse_clock spaced ≡ ok (set int64 (set int64 (new int64 []) node_a (pos 2)) node_b (negsuc 0))
unfolding program
parsed = refl

no_braces : parse_clock node_a ≡ err (err_not_braced node_a)
unfolding program
no_braces = refl

plain : (k : ℕ) → 65 ≤ k → k < 127 → IsPlain (k ∷ [])
unfolding program
plain k h l = record {
  no_comma = ground arith;
  no_colon = ground arith;
  trimmed = record { front = ground arith; back = ground arith };
}

IsPlain-of_ba : (k : Str) → has k (keys (made clock_ba)) ≡ true → IsPlain k
unfolding program
IsPlain-of_ba k h = elim (Bool-cases (str_eq node_b k)) [
  | inl e ↦ rw (← (str_eq_iff node_b k).0 e) (plain b'b' (omega arith) (omega arith))
  | inr e ↦
      let same : node_a ≡ k = (str_eq_iff node_a k).0 (ground arith) in
      rw (← same) (plain b'a' (omega arith) (omega arith))
]

ranged_ba : (k : Str) → is_int64 (get int64 (some clock_ba) k) ≡ true
unfolding program
ranged_ba k = ground arith

parse_clock-string_example :
    (c' : Clock) × (parse_clock (string int64 (some clock_ba)) ≡ ok c')
    × ((k : Str) → lookup k (made c') ≡ lookup k (made clock_ba))
parse_clock-string_example =
    parse_clock-string (some clock_ba) IsValid-ba.distinct IsPlain-of_ba ranged_ba

parse_clock-IsRead_example :
    IsRead spaced (set int64 (set int64 (new int64 []) node_a (pos 2)) node_b (negsuc 0))
parse_clock-IsRead_example = parse_clock-IsRead spaced _ parsed

-- "x"
x-IsJunk : IsJunk [] b'x'
x-IsJunk = record {
  stops = refl;
  no_comma = refl;
  no_colon = refl;
  visible = omega arith;
  ascii = omega arith;
}

parse_clock-junk_example :
    parse_clock (b'{' ∷ ((node_a ++ (b':' ∷ (print_ℤ (pos 12) ++ (b'x' ∷ [])))) ++ (b'}' ∷ [])))
    ≡ ok (set int64 (new int64 []) node_a (pos 12))
parse_clock-junk_example =
    parse_clock-junk (pos 12) [] b'x' x-IsJunk node_a (plain b'a' (omega arith) (omega arith)) refl
