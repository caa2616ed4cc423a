-- ===== src/Message/Carried.antt =====
-- What a clock's map holds, and which clock comes out of it.
use causalclock.Base.{
  ◌∙◌, sym, str_eq_refl, lookup, ℤ, pos, negsuc, Str, str_eq_iff, true, false, some, List, [], ◌∷◌,
  keys, insert, value_at, value_at-insert, insert-Distinct, Distinct, if◌then◌else◌, Bool-cases,
  inl, inr, ◌≡◌, refl, arith, str_eq,
}
use mathlib.Core.Path.{subst}
use causalclock.Clock.Types.{Clock, NodeId}
use causalclock.Counter.{int64, is_int64}
use causalclock.Counters.Comparison.{equal_cmp}
use causalclock.Counters.Compare.{compare}
use causalclock.Counters.Defs.{made, new, get}
use causalclock.Counters.Listing.{nodes}
use causalclock.Counters.Members.{has, value_at_of_has-false}
use causalclock.Counters.Determinism.Sorted.{has-sort}
use causalclock.Counters.Spec.{IsValid}
use causalclock.Counters.Changes.{get-new, new-IsValid}
use causalclock.Counters.Order.Sound.{compare-eq_iff}
use causalclock.Message.Types.{ok}
use causalclock.Message.Clocks.{clock_data_loop, clock_data, rebuild}
use causalclock.Message.Rebuild.{IsCount, AllCounts, join_zero, rebuild_loop-reads}

-- A clock that can be sent: no counter is negative, and an int64 holds each.
pub record IsSendable (c : Clock) : Type 0 where
  pub valid : IsValid int64 (some c)
  pub ranged : (k : Str) → is_int64 (get int64 (some c) k) ≡ true

is_count : (v : ℤ) → int64.less v (pos 0) ≡ false → is_int64 v ≡ true → IsCount v
is_count (pos n) h k = ground arith
is_count (negsuc n) h k = ground arith

counts : (c : Clock) → IsSendable c → (k : Str) → IsCount (get int64 (some c) k)
counts c h k = is_count (get int64 (some c) k) (h.valid.nonneg k) (h.ranged k)

insert-AllCounts :
    (k : Str) (v : ℤ) (m : List (Str × ℤ)) → IsCount v → AllCounts m → AllCounts (insert k v m)
unfolding insert
insert-AllCounts k v [] h a = (h, tt)
insert-AllCounts k v ((j, w) ∷ m) h a = elim (Bool-cases (str_eq j k)) [
  | inl e ↦ rw e (h, a.1)
  | inr e ↦ rw e (a.0, insert-AllCounts k v m h a.1)
]

clock_data_loop-holds :
    (c : Clock) (out : List (Str × ℤ)) (ns : List NodeId)
    → IsSendable c
    → Distinct out
    → AllCounts out
    → Distinct (clock_data_loop c out ns)
      × AllCounts (clock_data_loop c out ns)
      × ((k : Str)
          → value_at (pos 0) k (clock_data_loop c out ns)
            ≡ (if has k ns then get int64 (some c) k else value_at (pos 0) k out))
unfolding clock_data_loop
clock_data_loop-holds c out [] h d a = (d, a, λ k. refl)
clock_data_loop-holds c out (node ∷ ns) h d a =
    let v = get int64 (some c) node in
    let (d', a', reads) =
      clock_data_loop-holds c (insert node v out) ns h (insert-Distinct node v out d)
        (insert-AllCounts node v out (counts c h node) a) in
    (d', a', λ k. ground (arith, reads k, value_at-insert (pos 0) node k v out, str_eq_iff node k))

-- The map of a sendable clock has distinct keys, and counters that an int64 holds.
pub clock_data-AllCounts :
    (c : Clock) → IsSendable c → Distinct (clock_data (some c)) × AllCounts (clock_data (some c))
unfolding clock_data
clock_data-AllCounts c h =
    let (d, a, reads) = clock_data_loop-holds c [] (nodes (some c)) h tt tt in (d, a)

clock_data-reads :
    (c : Clock) (k : Str)
    → IsSendable c
    → value_at (pos 0) k (clock_data (some c)) ≡ get int64 (some c) k
unfolding clock_data nodes get
clock_data-reads c k h = ground (
  arith,
  (clock_data_loop-holds c [] (nodes (some c)) h tt tt).2 k,
  has-sort k (keys (made c)),
  value_at_of_has-false (pos 0) k (made c),
  value_at_of_has-false {V = ℤ} (pos 0) k [],
)

IsCount-of_lookup :
    (m : List (Str × ℤ)) (k : Str) (v : ℤ) → AllCounts m → lookup k m ≡ some v → IsCount v
unfolding lookup
IsCount-of_lookup [] k v a h = cc
IsCount-of_lookup ((j, w) ∷ m) k v a h = elim (Bool-cases (str_eq j k)) [
  | inl e ↦ let q : w ≡ v = ground arith in subst IsCount q a.0
  | inr e ↦ IsCount-of_lookup m k v a.1 (ground arith)
]

counts_of_lookups :
    (m : List (Str × ℤ))
    → Distinct m
    → ((k : Str) (v : ℤ) → lookup k m ≡ some v → IsCount v)
    → AllCounts m
unfolding lookup
counts_of_lookups [] d h = tt
counts_of_lookups ((k, v) ∷ m) d h = (
  h k v (rw (str_eq_refl k)),
  counts_of_lookups m d.1 (λ j w e. h j w (ground (arith, str_eq_iff k j, d.0, e))),
)

-- A sendable clock is written to a map, and a map with the same entries in any order is counted
-- up into a clock that compares equal to the clock that was sent, and reads the same everywhere.
pub rebuild-clock_data :
    (c : Clock) (arrived : List (Str × ℤ))
    → IsSendable c
    → Distinct arrived
    → ((k : Str) → lookup k arrived ≡ lookup k (clock_data (some c)))
    → (c' : Clock) × (rebuild arrived ≡ ok c')
      × IsValid int64 (some c')
      × ((k : Str) → get int64 (some c') k ≡ get int64 (some c) k)
      × (compare int64 (some c') (some c) ≡ equal_cmp)
unfolding rebuild clock_data value_at
rebuild-clock_data c arrived h d match =
    let (d', sent, reads) = clock_data_loop-holds c [] (nodes (some c)) h tt tt in
    let a =
      counts_of_lookups arrived d
        (λ k v e. IsCount-of_lookup (clock_data (some c)) k v sent (sym (match k) ∙ e)) in
    let (c', done, h', rest) =
      rebuild_loop-reads arrived (new int64 []) (new-IsValid int64 []) d a in
    let same : (k : Str) → get int64 (some c') k ≡ get int64 (some c) k = λ k. ground (
      arith,
      rest k,
      match k,
      get-new int64 [] k,
      clock_data-reads c k h,
      join_zero (get int64 (some c) k) (counts c h k),
    ) in
    (c', done, h', same, (compare-eq_iff int64 (some c') (some c) equal_cmp h' h.valid).1 same)
