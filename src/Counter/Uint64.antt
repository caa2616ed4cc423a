-- ===== src/Counter/Uint64.antt =====
-- Go's uint64: a native number below 2 ^ 64.
use causalclock.Base.{
  ℕ, ◌+◌, ◌-◌, ◌%◌, ◌^◌, ◌≡◌, refl, ◌≢◌, Bool, true, false, ltb, ◌==◌, ==_iff, arith,
}
use causalclock.Base.Decimal.{print_ℕ}
use causalclock.Counter.Laws.{Counter}

abbrev pub is_uint64 : ℕ → Bool
is_uint64 v = ltb v (2 ^ 64)

abbrev pub max_uint64 : ℕ
max_uint64 = 2 ^ 64 - 1

unfoldable pub inc_uint64 : ℕ → ℕ
inc_uint64 v = (v + 1) % 2 ^ 64

pub less_asym : (a b : ℕ) → ltb a b ≡ true → ltb b a ≡ false
less_asym a b h = ground arith

pub less_total : (a b : ℕ) → ltb a b ≡ false → ltb b a ≡ false → a ≡ b
less_total a b h k = ground arith

pub ge_trans : (a b c : ℕ) → ltb a b ≡ false → ltb b c ≡ false → ltb a c ≡ false
ge_trans a b c h k = ground arith

pub is_uint64-inc : (a : ℕ) → is_uint64 a ≡ true → is_uint64 (inc_uint64 a) ≡ true
unfolding inc_uint64
is_uint64-inc a h = ground arith

pub less-inc : (a : ℕ) → is_uint64 a ≡ true → a ≢ max_uint64 → ltb a (inc_uint64 a) ≡ true
unfolding inc_uint64
less-inc a h k = ground arith

pub is_uint64-zero : is_uint64 0 ≡ true
is_uint64-zero = refl

abbrev pub uint64 : Counter ℕ
uint64 = record {
  origin = 0;
  top = max_uint64;
  inc = inc_uint64;
  less = ltb;
  is_zero = λ v. v == 0;
  format = print_ℕ;
  in_range = is_uint64;
  less_asym = less_asym;
  less_total = less_total;
  ge_trans = ge_trans;
  is_zero_iff = λ a. ==_iff a 0;
  in_range-origin = is_uint64-zero;
  in_range-inc = is_uint64-inc;
  less-inc = less-inc;
}
