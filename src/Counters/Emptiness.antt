-- ===== src/Counters/Emptiness.antt =====
-- `IsEmpty` against `Get` and `Compare`.
use causalclock.Base.{
  Str, str_eq_iff, str_eq_refl, true, Option, none, List, [], ◌∷◌, lookup, value_at, Distinct, ◌≡◌,
  ◌↔◌, refl, arith,
}
use causalclock.Counter.{Counter}
use causalclock.Counters.Changes.{none-IsValid}
use causalclock.Counters.Comparison.{equal_cmp}
use causalclock.Counters.Defs.{Counters, entries_of, get}
use causalclock.Counters.Compare.{compare}
use causalclock.Counters.Listing.{all_zero, is_empty}
use causalclock.Counters.Spec.{IsValid}
use causalclock.Counters.Order.Sound.{compare-eq_iff}

module _ {V : Type 0} (num : Counter V) where
  open num use {origin, less, is_zero}

  zero_of_all_zero :
      (m : List (Str × V)) (k : Str) → all_zero num m ≡ true → value_at origin k m ≡ origin
  unfolding all_zero value_at lookup
  zero_of_all_zero [] k h = refl
  zero_of_all_zero ((j, v) ∷ m) k h = ground (arith, zero_of_all_zero m k, num.is_zero_iff v)

  all_zero_of_zero :
      (m : List (Str × V))
      → Distinct m
      → ((k : Str) → value_at origin k m ≡ origin)
      → all_zero num m ≡ true
  unfolding all_zero value_at lookup
  all_zero_of_zero [] d h = refl
  all_zero_of_zero ((j, v) ∷ m) d h = ground (
    arith,
    h j,
    str_eq_refl j,
    num.is_zero_iff v,
    all_zero_of_zero m d.1 (λ k. ground (arith, h k, str_eq_iff j k, d.0)),
  )

  -- `is_empty` answers true exactly when every node reads zero.
  pub is_empty_iff :
      (c : Option (Counters V))
      → Distinct (entries_of c)
      → (is_empty num c ≡ true) ↔ ((k : Str) → get num c k ≡ origin)
  unfolding is_empty get
  is_empty_iff c d = (λ h k. zero_of_all_zero (entries_of c) k h, all_zero_of_zero (entries_of c) d)

  -- A valid map is empty exactly when it compares equal to the nil pointer.
  pub is_empty-compare :
      (c : Option (Counters V))
      → IsValid num c
      → (is_empty num c ≡ true) ↔ (compare num c none ≡ equal_cmp)
  is_empty-compare c h =
      let e = is_empty_iff c h.distinct in
      let r = compare-eq_iff num c none equal_cmp h (none-IsValid num) in
      (
        λ p. r.1 (unfold get value_at lookup in e.0 p),
        λ p. e.1 (unfold get value_at lookup in r.0 p),
      )
