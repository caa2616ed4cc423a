-- ===== src/Base/Scan.antt =====
-- `fmt.Sscanf` with the format "%d" into an int64: a sign, then digits, and what follows them is
-- not looked at. The text has no space in front, so that there is none to skip.
use Prim.Native.Nat.{ℕ, zero, suc, ◌+◌, ◌-◌, ◌*◌, ◌/◌, ◌%◌, ◌^◌, ◌<◌}
use mathlib.Core.Path.{◌≡◌, refl, sym, ap, ◌∙◌}
use mathlib.Core.Bool.{Bool, true, false, ◌&&◌}
use mathlib.Core.Option.{Option, none, some}
use mathlib.Core.List.{[], ◌∷◌, ◌++◌, append_assoc}
use mathlib.Core.Logic.{inl, inr, ◌≢◌}
use causalclock.Base.Text.{has_byte, IsTrimmed, front_width, front_width_solid, back_width_last}
use native.Mathlib.Omega.{arith}
use causalclock.Base.Tests.{Bool-cases, ltb, leb, ◌==◌, if◌then◌else◌}
use causalclock.Base.Strings.{Str}
use causalclock.Base.Int.{ℤ, pos, negsuc, is_int64}
use causalclock.Base.Decimal.{digits_onto, print_ℕ, print_ℤ}

abbrev pub is_digit : ℕ → Bool
is_digit b = leb 48 b && leb b 57

-- The number of the digits that the text starts with, behind those that make `acc`.
unfoldable pub read_digits : ℕ → Str → ℕ
read_digits acc [] = acc
read_digits acc (b ∷ s) =
    let rest = read_digits (acc * 10 + (b - 48)) s in if is_digit b then rest else acc

-- The digits as an int64 with the sign, if there are any and the number is in range.
unfoldable pub read_signed : Bool → Str → Option ℤ
unfolding read_digits
read_signed negative [] = none
read_signed negative (b ∷ s) =
    let n = read_digits 0 (b ∷ s) in
    let minus = if n == 0 then pos 0 else negsuc (n - 1) in
    if is_digit b
    then if negative
      then if leb n (2 ^ 63) then some minus else none
      else if ltb n (2 ^ 63)
      then some (pos n)
      else none
    else none

unfoldable pub scan_int : Str → Option ℤ
unfolding read_signed
scan_int [] = none
scan_int (b ∷ s) =
    if b == b'-'
    then read_signed true s
    else if b == b'+'
    then read_signed false s
    else read_signed false (b ∷ s)

-- A text that starts with no digit.
abbrev pub Stops : Str → Type 0
Stops [] = Unit {0}
Stops (b ∷ s) = is_digit b ≡ false

read_digits_stop : (n : ℕ) (rest : Str) → Stops rest → read_digits n rest ≡ n
unfolding read_digits
read_digits_stop n [] h = refl
read_digits_stop n (b ∷ s) h = ground arith

-- 10 ^ (f + 1), the number of numbers of at most f + 1 digits.
abbrev capacity : ℕ → ℕ
capacity zero = 10
capacity (suc f) = 10 * capacity f

read_digits-digits_onto :
    (f n : ℕ) (rest : Str)
    → n < capacity f
    → read_digits 0 (digits_onto f n rest) ≡ read_digits n rest
unfolding digits_onto read_digits
read_digits-digits_onto zero n rest h = ground arith
read_digits-digits_onto (suc f) n rest h =
    ground (arith, read_digits-digits_onto f (n / 10) ((48 + n % 10) ∷ rest))

digits_onto-append :
    (f n : ℕ) (rest more : Str) → digits_onto f n rest ++ more ≡ digits_onto f n (rest ++ more)
unfolding digits_onto
digits_onto-append zero n rest more = refl
digits_onto-append (suc f) n rest more =
    ground (arith, digits_onto-append f (n / 10) ((48 + n % 10) ∷ rest) more)

digits_onto_head :
    (f n : ℕ) (rest : Str)
    → (b : ℕ) × (s : Str) × (digits_onto f n rest ≡ b ∷ s) × (is_digit b ≡ true)
unfolding digits_onto
digits_onto_head zero n rest = (48 + n % 10, rest, refl, ground arith)
digits_onto_head (suc f) n rest = elim (Bool-cases (ltb n 10)) [
  | inl e ↦ (48 + n, rest, rw e, ground arith)
  | inr e ↦ rw e (digits_onto_head f (n / 10) ((48 + n % 10) ∷ rest))
]

digits_onto_last :
    (f n : ℕ) (rest : Str) → (s : Str) × (digits_onto f n rest ≡ s ++ ((48 + n % 10) ∷ rest))
unfolding digits_onto
digits_onto_last zero n rest = ([], refl)
digits_onto_last (suc f) n rest = elim (Bool-cases (ltb n 10)) [
  | inl e ↦ ([], ground arith)
  | inr e ↦
      let (s, h) = digits_onto_last f (n / 10) ((48 + n % 10) ∷ rest) in
      (s ++ ((48 + n / 10 % 10) ∷ []), rw (e, append_assoc) h)
]

-- A byte that is no digit does not stand in a number.
digits_onto_lacks :
    (c f n : ℕ) (rest : Str)
    → is_digit c ≡ false
    → has_byte c rest ≡ false
    → has_byte c (digits_onto f n rest) ≡ false
unfolding digits_onto
digits_onto_lacks c zero n rest d h = ground arith
digits_onto_lacks c (suc f) n rest d h =
    ground (arith, digits_onto_lacks c f (n / 10) ((48 + n % 10) ∷ rest))

read_signed-print_ℕ :
    (negative : Bool) (n : ℕ) (rest : Str)
    → n < 10 ^ 20
    → Stops rest
    → read_signed negative (print_ℕ n ++ rest) ≡ (
        if negative
        then if leb n (2 ^ 63) then some (if n == 0 then pos 0 else negsuc (n - 1)) else none
        else if ltb n (2 ^ 63)
        then some (pos n)
        else none)
unfolding read_signed print_ℕ
read_signed-print_ℕ negative n rest h stop =
    let (b, s, e, d) = digits_onto_head 19 n rest in
    let value : read_digits 0 (b ∷ s) ≡ n =
      ap (read_digits 0) (sym e)
      ∙ read_digits-digits_onto 19 n rest (omega arith)
      ∙ read_digits_stop n rest stop in
    rw (digits_onto-append 19 n [] rest, e) (rw (read_signed, value, d))

print_ℕ_head :
    (n : ℕ) (rest : Str) → (b : ℕ) × (s : Str) × (print_ℕ n ++ rest ≡ b ∷ s) × (is_digit b ≡ true)
unfolding print_ℕ
print_ℕ_head n rest = rw (digits_onto-append 19 n [] rest) (digits_onto_head 19 n rest)

scan_int_digit :
    (b : ℕ) (s : Str) → is_digit b ≡ true → scan_int (b ∷ s) ≡ read_signed false (b ∷ s)
unfolding scan_int
scan_int_digit b s d = ground arith

-- `%d` reads back what `%d` printed, whatever follows that is no digit.
pub scan_int-print_ℤ :
    (v : ℤ) (rest : Str) → is_int64 v ≡ true → Stops rest → scan_int (print_ℤ v ++ rest) ≡ some v
unfolding scan_int print_ℤ
scan_int-print_ℤ (pos n) rest r stop =
    let (b, s, e, d) = print_ℕ_head n rest in
    ap scan_int e
    ∙ scan_int_digit b s d
    ∙ ap (read_signed false) (sym e)
    ∙ read_signed-print_ℕ false n rest (ground arith) stop
    ∙ rw r
scan_int-print_ℤ (negsuc n) rest r stop =
    ground (arith, read_signed-print_ℕ true (n + 1) rest (ground arith) stop)

-- A printed number has no byte but digits and a sign.
pub print_ℤ_lacks : (c : ℕ) (v : ℤ) → is_digit c ≡ false → c ≢ b'-' → has_byte c (print_ℤ v) ≡ false
unfolding print_ℤ
print_ℤ_lacks c (pos n) d h = digits_onto_lacks c 19 n [] d refl
print_ℤ_lacks c (negsuc n) d h = ground (arith, digits_onto_lacks c 19 (n + 1) [] d refl)

-- It starts with a digit or a sign, and ends with a digit.
print_ℤ_last : (v : ℤ) → (s : Str) × (b : ℕ) × (print_ℤ v ≡ s ++ (b ∷ [])) × (is_digit b ≡ true)
unfolding print_ℤ
print_ℤ_last (pos n) = let (s, e) = digits_onto_last 19 n [] in (s, 48 + n % 10, e, ground arith)
print_ℤ_last (negsuc n) =
    let (s, e) = digits_onto_last 19 (n + 1) [] in (b'-' ∷ s, 48 + (n + 1) % 10, rw e, ground arith)

pub print_ℤ-IsTrimmed :
    (v : ℤ) (p : Str) → front_width (p ++ print_ℤ v) ≡ 0 → IsTrimmed (p ++ print_ℤ v)
print_ℤ-IsTrimmed v p h =
    let (s, b, e, d) = print_ℤ_last v in
    record {
      front = h;
      back =
          rw (e, ← append_assoc p s (b ∷ []))
            (back_width_last (p ++ s) b (ground arith) (ground arith));
    }

pub front_width-print_ℤ : (v : ℤ) (rest : Str) → front_width (print_ℤ v ++ rest) ≡ 0
unfolding print_ℤ
front_width-print_ℤ (pos n) rest =
    let (b, s, e, d) = print_ℕ_head n rest in
    rw e (front_width_solid b s (ground arith) (ground arith))
front_width-print_ℤ (negsuc n) rest =
    front_width_solid b'-' (print_ℕ (n + 1) ++ rest) (omega arith) (omega arith)

read_signed_range :
    (negative : Bool) (s : Str) (v : ℤ) → read_signed negative s ≡ some v → is_int64 v ≡ true
unfolding read_signed
read_signed_range negative [] v h = ground arith
read_signed_range negative (b ∷ s) v h = ground arith

-- What is read is in range.
pub scan_int_range : (s : Str) (v : ℤ) → scan_int s ≡ some v → is_int64 v ≡ true
unfolding scan_int
scan_int_range [] v h = ground arith
scan_int_range (b ∷ s) v h = ground (
  arith,
  read_signed_range true s v,
  read_signed_range false s v,
  read_signed_range false (b ∷ s) v,
)
