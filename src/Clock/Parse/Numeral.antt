-- ===== src/Clock/Parse/Numeral.antt =====
-- What `fmt.Sscanf` takes for a number.
use causalclock.Base.{
  Str, ℕ, ℤ, ◌+◌, ◌-◌, ◌*◌, ◌<◌, ◌==◌, [], ◌∷◌, ◌++◌, length, some, All, true, false, pos, negsuc,
  Bool, Bool-cases, inl, inr, if◌then◌else◌, ◌≡◌, refl, ap, arith,
}
use causalclock.Base.Scan.{is_digit, read_digits, read_signed, scan_int, Stops}

-- The value of digits, behind those that make the first number.
abbrev pub decimal : ℕ → Str → ℕ
decimal n [] = n
decimal n (d ∷ ds) = decimal (n * 10 + (d - 48)) ds

abbrev pub negated : ℕ → ℤ
negated n = if n == 0 then pos 0 else negsuc (n - 1)

-- One digit or more, with no digit behind them.
pub record AreDigits (ds rest : Str) : Type 0 where
  pub some_digits : 0 < length ds
  pub all_digits : All (λ b. is_digit b ≡ true) ds
  pub stops : Stops rest

-- Digits with a sign or none, with other text behind them.
pub data IsNumeral : Str → ℤ → Type 0 where
  plain : {ds rest : Str} → AreDigits ds rest → IsNumeral (ds ++ rest) (pos (decimal 0 ds))
  plus : {ds rest : Str} → AreDigits ds rest → IsNumeral (b'+' ∷ (ds ++ rest)) (pos (decimal 0 ds))
  minus :
      {ds rest : Str} → AreDigits ds rest → IsNumeral (b'-' ∷ (ds ++ rest)) (negated (decimal 0 ds))

digits_of :
    (n : ℕ) (s : Str)
    → (ds : Str) × (rest : Str) × (s ≡ ds ++ rest)
      × All (λ b. is_digit b ≡ true) ds
      × Stops rest
      × (read_digits n s ≡ decimal n ds)
unfolding read_digits
digits_of n [] = ([], [], refl, tt, tt, refl)
digits_of n (b ∷ s) = elim (Bool-cases (is_digit b)) [
  | inl e ↦
      let (ds, rest, text, all, stops, value) = digits_of (n * 10 + (b - 48)) s in
      (b ∷ ds, rest, ap (λ x. b ∷ x) text, (e, all), stops, rw e value)
  | inr e ↦ ([], b ∷ s, refl, tt, e, rw e refl)
]

-- The value of digits with the sign.
abbrev signed : Bool → ℕ → ℤ
signed negative n = if negative then negated n else pos n

read_signed_digits :
    (negative : Bool) (s : Str) (v : ℤ)
    → read_signed negative s ≡ some v
    → (ds : Str) × (rest : Str) × (s ≡ ds ++ rest)
      × AreDigits ds rest
      × (v ≡ signed negative (decimal 0 ds))
unfolding read_signed
read_signed_digits negative [] v e = cc
read_signed_digits negative (b ∷ s) v e =
    let (ds, rest, text, all, stops, value) = digits_of 0 (b ∷ s) in
    let digit : is_digit b ≡ true = ground (arith, e) in
    (
      ds,
      rest,
      text,
      record {
        some_digits = not_empty b s ds rest text stops digit;
        all_digits = all;
        stops = stops;
      },
      rw (← value) (ground (arith, e)),
    )
  where
    not_empty :
        (b : ℕ) (s ds rest : Str)
        → b ∷ s ≡ ds ++ rest
        → Stops rest
        → is_digit b ≡ true
        → 0 < length ds
    not_empty b s [] [] text stops digit = cc
    not_empty b s [] (c ∷ rest) text stops digit = absurd (ground (arith, text, stops, digit))
    not_empty b s (d ∷ ds) rest text stops digit = omega arith

pub scan_int-IsNumeral : (s : Str) (v : ℤ) → scan_int s ≡ some v → IsNumeral s v
unfolding scan_int
scan_int-IsNumeral [] v e = cc
scan_int-IsNumeral (b ∷ s) v e = elim (Bool-cases (b == b'-')) [
  | inl dash ↦
      let same : b ≡ b'-' = ground arith in
      let (ds, rest, text, digits, value) = read_signed_digits true s v (ground (arith, e, dash)) in
      rw (same, text, value) (minus digits)
  | inr other ↦ elim (Bool-cases (b == b'+')) [
    | inl cross ↦
        let same : b ≡ b'+' = ground arith in
        let (ds, rest, text, digits, value) =
          read_signed_digits false s v (ground (arith, e, other, cross)) in
        rw (same, text, value) (plus digits)
    | inr none_of_both ↦
        let (ds, rest, text, digits, value) =
          read_signed_digits false (b ∷ s) v (ground (arith, e, other, none_of_both)) in
        rw (text, value) (plain digits)
  ]
]
