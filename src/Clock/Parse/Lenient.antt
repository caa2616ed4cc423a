-- ===== src/Clock/Parse/Lenient.antt =====
-- Texts that `String` never prints and `ParseClock` accepts.
use causalclock.Base.{
  ◌≢◌, ℕ, Str, ◌≤◌, ◌<◌, ℤ, is_int64, true, false, [], ◌∷◌, ◌++◌, length-append, ◌≡◌, refl, arith,
}
use mathlib.Core.List.{append_assoc}
use causalclock.Base.Decimal.{print_ℤ}
use causalclock.Base.Scan.{is_digit, Stops, scan_int-print_ℤ, print_ℤ_lacks, front_width-print_ℤ}
use causalclock.Base.Text.{
  has_byte, has_byte-append, split_none, split-append, trim_space, trim_space-IsTrimmed, IsTrimmed,
  front_width-append, back_width_last, front_width,
}
use causalclock.Clock.Parse.{ok, set_parts, parse_loop, parse_clock}
use causalclock.Clock.Parse.Pairs.{IsPlain, parse_clock_braced}
use causalclock.Clock.Types.{NodeId}
use causalclock.Counter.{int64}
use causalclock.Counters.Defs.{new, set}

-- What may stand behind a value: it starts with no digit, ends with an ASCII character that is
-- no space, and has neither separator.
pub record IsJunk (junk : Str) (last : ℕ) : Type 0 where
  pub stops : Stops (junk ++ (last ∷ []))
  pub no_comma : has_byte b',' (junk ++ (last ∷ [])) ≡ false
  pub no_colon : has_byte b':' (junk ++ (last ∷ [])) ≡ false
  pub visible : 33 ≤ last
  pub ascii : last < 128

module _ (v : ℤ) (junk : Str) (last : ℕ) (h : IsJunk junk last) where
  abbrev number : Str
  number = print_ℤ v ++ (junk ++ (last ∷ []))

  number-IsTrimmed : (p : Str) → front_width (p ++ number) ≡ 0 → IsTrimmed (p ++ number)
  number-IsTrimmed p front =
      let shape : p ++ number ≡ (p ++ (print_ℤ v ++ junk)) ++ (last ∷ []) = simp append_assoc in
      record {
        front = front;
        back = rw shape (back_width_last (p ++ (print_ℤ v ++ junk)) last h.visible h.ascii);
      }

  number_front : front_width number ≡ 0
  number_front = front_width-print_ℤ v (junk ++ (last ∷ []))

  number_lacks :
      (c : ℕ)
      → is_digit c ≡ false
      → c ≢ b'-'
      → has_byte c (junk ++ (last ∷ [])) ≡ false
      → has_byte c number ≡ false
  number_lacks c d m n =
      ground (arith, has_byte-append c (print_ℤ v) (junk ++ (last ∷ [])), print_ℤ_lacks c v d m, n)

  -- A value in range with text behind it that starts with no digit is read without that text,
  -- where neither the name nor the text has a comma or a colon and the text ends visibly.
  pub parse_clock-junk :
      (k : NodeId)
      → IsPlain k
      → is_int64 v ≡ true
      → parse_clock (b'{' ∷ ((k ++ (b':' ∷ (print_ℤ v ++ (junk ++ (last ∷ []))))) ++ (b'}' ∷ [])))
        ≡ ok (set int64 (new int64 []) k v)
  unfolding parse_loop set_parts
  parse_clock-junk k p r =
      let pair = k ++ (b':' ∷ number) in
      let front : front_width pair ≡ 0 =
        front_width-append k b':' number p.trimmed.front (omega arith) (omega arith) in
      let pair_trimmed : trim_space pair ≡ pair =
        trim_space-IsTrimmed pair
          (rw append_assoc at (number-IsTrimmed (k ++ (b':' ∷ [])) (rw append_assoc front))) in
      let no_comma : has_byte b',' pair ≡ false = ground (
        arith,
        has_byte-append b',' k (b':' ∷ number),
        p.no_comma,
        number_lacks b',' refl (λ e. omega arith) h.no_comma,
      ) in
      rw (
        parse_clock_braced pair (omega (arith, length-append k (b':' ∷ number))),
        split_none b',' pair no_comma,
        parse_loop,
        pair_trimmed,
        split-append b':' k number p.no_colon,
        split_none b':' number (number_lacks b':' refl (λ e. omega arith) h.no_colon),
        set_parts,
        trim_space-IsTrimmed number (number-IsTrimmed [] number_front),
        scan_int-print_ℤ v (junk ++ (last ∷ [])) r h.stops,
        trim_space-IsTrimmed k p.trimmed,
      )
