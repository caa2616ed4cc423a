-- ===== src/Counter/Int64.antt =====
-- Go's int64: an integer from -2 ^ 63 to 2 ^ 63 - 1, whose increment wraps round.
use causalclock.Base.{
  ℕ, suc, ◌+◌, ◌-◌, ◌%◌, ◌^◌, ◌≡◌, ◌≢◌, ◌↔◌, refl, Bool, true, false, ltb, ◌==◌, arith, ℤ, pos,
  negsuc, ltb_ℤ, is_int64, if◌then◌else◌, zero,
}
use causalclock.Base.Decimal.{print_ℤ}
use causalclock.Counter.Laws.{Counter}

abbrev pub max_int64 : ℤ
max_int64 = pos (2 ^ 63 - 1)

-- The integer of a 64-bit pattern, in two's complement.
abbrev of_bits : ℕ → ℤ
of_bits u = if ltb u (2 ^ 63) then pos u else negsuc (2 ^ 64 - 1 - u)

-- `v++`
unfoldable pub inc_int64 : ℤ → ℤ
inc_int64 (pos n) = of_bits ((n + 1) % 2 ^ 64)
inc_int64 (negsuc zero) = pos 0
inc_int64 (negsuc (suc n)) = negsuc n

-- `v == 0`
abbrev pub is_zero_int64 : ℤ → Bool
is_zero_int64 (pos n) = n == 0
is_zero_int64 (negsuc n) = false

pub less_asym : (a b : ℤ) → ltb_ℤ a b ≡ true → ltb_ℤ b a ≡ false
less_asym a b h = ground arith

pub less_total : (a b : ℤ) → ltb_ℤ a b ≡ false → ltb_ℤ b a ≡ false → a ≡ b
less_total a b h k = ground arith

pub ge_trans : (a b c : ℤ) → ltb_ℤ a b ≡ false → ltb_ℤ b c ≡ false → ltb_ℤ a c ≡ false
ge_trans a b c h k = ground arith

pub is_zero_iff : (a : ℤ) → (is_zero_int64 a ≡ true) ↔ (a ≡ pos 0)
is_zero_iff (pos n) = ground arith
is_zero_iff (negsuc n) = ground arith

pub is_int64-inc : (a : ℤ) → is_int64 a ≡ true → is_int64 (inc_int64 a) ≡ true
unfolding inc_int64
is_int64-inc (pos n) h = ground arith
is_int64-inc (negsuc zero) h = refl
is_int64-inc (negsuc (suc n)) h = ground arith

pub less-inc : (a : ℤ) → is_int64 a ≡ true → a ≢ max_int64 → ltb_ℤ a (inc_int64 a) ≡ true
unfolding inc_int64
less-inc (pos n) h k = ground arith
less-inc (negsuc zero) h k = refl
less-inc (negsuc (suc n)) h k = ground arith

pub is_int64-zero : is_int64 (pos 0) ≡ true
is_int64-zero = refl

abbrev pub int64 : Counter ℤ
int64 = record {
  origin = pos 0;
  top = max_int64;
  inc = inc_int64;
  less = ltb_ℤ;
  is_zero = is_zero_int64;
  format = print_ℤ;
  in_range = is_int64;
  less_asym = less_asym;
  less_total = less_total;
  ge_trans = ge_trans;
  is_zero_iff = is_zero_iff;
  in_range-origin = is_int64-zero;
  in_range-inc = is_int64-inc;
  less-inc = less-inc;
}
