-- ===== src/Clock/Negative.antt =====
-- Negative counters, which `Set` allows, in a comparison.
use causalclock.Base.{
  ℕ, negsuc, none, some, [], ◌∷◌, ◌≡◌, arith, str_eq_refl, value_at, lookup, insert,
}
use causalclock.Counter.{int64}
use causalclock.Counters.Comparison.{equal_cmp, after_cmp}
use causalclock.Counters.Defs.{new, set}
use causalclock.Counters.Compare.{compare}
use causalclock.Clock.Types.{Clock, NodeId}

-- A clock whose only counter was set to -(n + 1).
abbrev pub negative : NodeId → ℕ → Clock
negative node n = set int64 (new int64 []) node (negsuc n)

-- A clock with one negative counter compares equal to a nil clock, on either side, though the clock
-- that holds the same node at zero compares after it.
pub compare-negative :
    (node : NodeId) (n : ℕ)
    → (compare int64 (some (negative node n)) none ≡ equal_cmp)
      × (compare int64 none (some (negative node n)) ≡ equal_cmp)
      × (compare int64 (some (new int64 (node ∷ []))) (some (negative node n)) ≡ after_cmp)
unfolding compare set new insert value_at lookup
compare-negative node n = (ground arith, ground arith, ground (arith, str_eq_refl node))
