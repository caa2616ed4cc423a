-- ===== src/Version/Laws.antt =====
-- Version vectors need no care about negative values: distinct keys are enough.
use causalclock.Base.{Option, Distinct, ◌≤◌, ◌<◌, ◌≡◌, ◌↔◌, refl, arith}
use causalclock.Counter.{uint64}
use causalclock.Counters.Comparison.{
  Comparison, concurrent_cmp, before_cmp, after_cmp, equal_cmp, cmp_eq, flip,
}
use causalclock.Counters.Compare
use causalclock.Counters.Defs.{entries_of}
use causalclock.Counters.Spec.{IsValid, Related}
use causalclock.Counters.Order.Sound.{compare-eq_iff}
use causalclock.Counters.Order.Laws.{compare-flip}
use causalclock.Version.Vector.{
  VersionVector, ReplicaId, get, compare, dominates, is_dominated_by, happened_before,
  happened_after,
}

-- The four answers of `Compare` in the numbers that `Get` returns.
abbrev pub Ordered : Option VersionVector → Option VersionVector → Comparison → Type 0
Ordered v w concurrent_cmp =
    ((k : ReplicaId) × (get w k < get v k)) × ((k : ReplicaId) × (get v k < get w k))
Ordered v w before_cmp =
    ((k : ReplicaId) → get v k ≤ get w k) × ((k : ReplicaId) × (get v k < get w k))
Ordered v w after_cmp =
    ((k : ReplicaId) → get w k ≤ get v k) × ((k : ReplicaId) × (get w k < get v k))
Ordered v w equal_cmp = (k : ReplicaId) → get v k ≡ get w k

valid : (v : Option VersionVector) → Distinct (entries_of v) → IsValid uint64 v
valid v d = record { distinct = d; nonneg = λ k. ground arith }

Ordered-iff : (v w : Option VersionVector) (r : Comparison) → Related uint64 v w r ↔ Ordered v w r
unfolding get
Ordered-iff v w concurrent_cmp = (
  λ h. ((h.0.0, ground (arith, h.0.1)), (h.1.0, ground (arith, h.1.1))),
  λ h. ((h.0.0, ground (arith, h.0.1)), (h.1.0, ground (arith, h.1.1))),
)
Ordered-iff v w before_cmp = (
  λ h. (λ k. ground (arith, h.0 k), (h.1.0, ground (arith, h.1.1))),
  λ h. (λ k. ground (arith, h.0 k), (h.1.0, ground (arith, h.1.1))),
)
Ordered-iff v w after_cmp = (
  λ h. (λ k. ground (arith, h.0 k), (h.1.0, ground (arith, h.1.1))),
  λ h. (λ k. ground (arith, h.0 k), (h.1.0, ground (arith, h.1.1))),
)
Ordered-iff v w equal_cmp = (λ h. h, λ h. h)

-- For version vectors with distinct keys, `compare` answers exactly the order of the counters.
pub compare-Ordered :
    (v w : Option VersionVector) (r : Comparison)
    → Distinct (entries_of v)
    → Distinct (entries_of w)
    → (compare v w ≡ r) ↔ Ordered v w r
unfolding compare
compare-Ordered v w r dv dw =
    let iff = compare-eq_iff uint64 v w r (valid v dv) (valid w dw) in
    (λ e. (Ordered-iff v w r).0 (iff.0 e), λ o. iff.1 ((Ordered-iff v w r).1 o))

flip_after : (r : Comparison) → cmp_eq (flip r) before_cmp ≡ cmp_eq r after_cmp
unfolding flip
flip_after concurrent_cmp = refl
flip_after before_cmp = refl
flip_after after_cmp = refl
flip_after equal_cmp = refl

-- One vector dominates another exactly when the other is dominated by it.
pub dominates-is_dominated_by :
    (v w : Option VersionVector)
    → Distinct (entries_of v)
    → Distinct (entries_of w)
    → is_dominated_by w v ≡ dominates v w
unfolding is_dominated_by dominates happened_before happened_after Compare.happened_before
    Compare.happened_after
dominates-is_dominated_by v w dv dw =
    rw (compare-flip uint64 v w (valid v dv) (valid w dw)) (flip_after (Compare.compare uint64 v w))
