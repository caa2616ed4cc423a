-- ===== src/Counters/Events.antt =====
-- What a node does with its map: a local event increments its own counter, a receipt merges
-- the sender's map and then increments.
use causalclock.Base.{Str, str_eq_iff, str_eq_refl, true, some, ◌≡◌, ◌≢◌, arith}
use causalclock.Counter.{Counter, less_irrefl}
use causalclock.Counters.Comparison.{before_cmp, concurrent_cmp}
use causalclock.Counters.Defs.{Counters, increment, get}
use causalclock.Counters.Compare.{compare}
use causalclock.Counters.Spec.{IsValid, Exceeds}
use causalclock.Counters.Reads.{get-increment}
use causalclock.Counters.Changes.{increment-IsValid}
use causalclock.Counters.Order.Sound.{compare-eq_iff}

module _ {V : Type 0} (num : Counter V) where
  open num use {origin, less}

  -- The counter of the node is a machine value that can still grow.
  pub record CanGrow (c : Counters V) (node : Str) : Type 0 where
    pub ranged : num.in_range (get num (some c) node) ≡ true
    pub below_top : get num (some c) node ≢ num.top

  -- `increment` puts the state before the new one.
  pub compare-increment :
      (c : Counters V) (node : Str)
      → IsValid num (some c)
      → CanGrow c node
      → compare num (some c) (some (increment num c node).0) ≡ before_cmp
  compare-increment c node h g =
      let grown = num.less-inc (get num (some c) node) g.ranged g.below_top in
      let h' = increment-IsValid num c node h g.ranged g.below_top in
      (compare-eq_iff num _ _ before_cmp h h').1 (
        λ k. ground (
          arith,
          (get-increment num c node k).0,
          less_irrefl num (get num (some c) k),
          num.less_asym (get num (some c) node) (num.inc (get num (some c) node)),
          grown,
          str_eq_iff node k,
        ),
        (node, ground (arith, (get-increment num c node node).0, grown, str_eq_refl node)),
      )

  Exceeds-increment :
      (c : Counters V) (a b : Str)
      → CanGrow c a
      → a ≢ b
      → Exceeds num (some (increment num c a).0) (some (increment num c b).0)
  Exceeds-increment c a b g ne = (
    a,
    ground (
      arith,
      (get-increment num c a a).0,
      (get-increment num c b a).0,
      num.less-inc (get num (some c) a) g.ranged g.below_top,
      str_eq_refl a,
      str_eq_iff b a,
    ),
  )

  -- Two nodes that increment the same state independently are concurrent.
  pub compare-increment_both :
      (c : Counters V) (a b : Str)
      → IsValid num (some c)
      → CanGrow c a
      → CanGrow c b
      → a ≢ b
      → compare num (some (increment num c a).0) (some (increment num c b).0) ≡ concurrent_cmp
  compare-increment_both c a b h ga gb ne =
      (compare-eq_iff num _ _ concurrent_cmp (increment-IsValid num c a h ga.ranged ga.below_top)
          (increment-IsValid num c b h gb.ranged gb.below_top)).1
        (Exceeds-increment c a b ga ne, Exceeds-increment c b a gb (λ e. ne (ground arith)))
