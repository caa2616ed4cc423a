-- ===== src/Counters/Order/Laws.antt =====
-- The order that the answers of `compare` form on valid sides.
use causalclock.Base.{true, Option, ◌||◌, ◌≡◌, ◌↔◌, refl, sym}
use causalclock.Counter.{Counter, less_irrefl, less_of_ge}
use causalclock.Counters.Comparison.{
  Comparison, concurrent_cmp, before_cmp, after_cmp, equal_cmp, cmp_eq, flip,
}
use causalclock.Counters.Defs.{Counters, get}
use causalclock.Counters.Compare.{compare, ancestor, descendant}
use causalclock.Counters.Spec.{IsValid, Below, Related}
use causalclock.Counters.Order.Sound.{compare-Related, compare-eq_iff}

module _ {V : Type 0} (num : Counter V) where
  open num use {less}

  Related-flip :
      (c d : Option (Counters V)) (r : Comparison) → Related num c d r → Related num d c (flip r)
  unfolding flip
  Related-flip c d concurrent_cmp h = (h.1, h.0)
  Related-flip c d before_cmp h = h
  Related-flip c d after_cmp h = h
  Related-flip c d equal_cmp h = λ k. sym (h k)

  -- Exchanging two valid sides exchanges before and after, and keeps the other answers.
  pub compare-flip :
      (c d : Option (Counters V))
      → IsValid num c
      → IsValid num d
      → compare num d c ≡ flip (compare num c d)
  compare-flip c d hc hd =
      (compare-eq_iff num d c (flip (compare num c d)) hd hc).1
        (Related-flip c d (compare num c d) (compare-Related num c d hc hd))

  -- Happened-before is transitive on valid sides.
  pub before_trans :
      (c d e : Option (Counters V))
      → IsValid num c
      → IsValid num d
      → IsValid num e
      → compare num c d ≡ before_cmp
      → compare num d e ≡ before_cmp
      → compare num c e ≡ before_cmp
  before_trans c d e hc hd he p q =
      let cd = (compare-eq_iff num c d before_cmp hc hd).0 p in
      let de = (compare-eq_iff num d e before_cmp hd he).0 q in
      let k = de.1.0 in
      (compare-eq_iff num c e before_cmp hc he).1 (
        λ j. num.ge_trans (get num e j) (get num d j) (get num c j) (de.0 j) (cd.0 j),
        (k, less_of_ge num (get num c k) (get num d k) (get num e k) (cd.0 k) de.1.1),
      )

  Below-of_Related :
      (c d : Option (Counters V)) (r : Comparison)
      → (cmp_eq r before_cmp || cmp_eq r equal_cmp) ≡ true
      → Related num c d r
      → Below num c d
  Below-of_Related c d concurrent_cmp e h = cc
  Below-of_Related c d before_cmp e h = h.0
  Below-of_Related c d after_cmp e h = cc
  Below-of_Related c d equal_cmp e h = λ k. rw (h k) (less_irrefl num (get num d k))

  ancestor_of_Below :
      (c d : Option (Counters V)) (r : Comparison)
      → Below num c d
      → Related num c d r
      → (cmp_eq r before_cmp || cmp_eq r equal_cmp) ≡ true
  ancestor_of_Below c d concurrent_cmp b h = cc (b h.0.0, h.0.1)
  ancestor_of_Below c d before_cmp b h = refl
  ancestor_of_Below c d after_cmp b h = cc (b h.1.0, h.1.1)
  ancestor_of_Below c d equal_cmp b h = refl

  -- `ancestor` holds of valid sides exactly when no counter of the first exceeds the second's.
  pub ancestor_iff :
      (c d : Option (Counters V))
      → IsValid num c
      → IsValid num d
      → (ancestor num c d ≡ true) ↔ Below num c d
  unfolding ancestor
  ancestor_iff c d hc hd = (
    λ e. Below-of_Related c d (compare num c d) e (compare-Related num c d hc hd),
    λ b. ancestor_of_Below c d (compare num c d) b (compare-Related num c d hc hd),
  )

  descendant_flip :
      (r : Comparison)
      → (cmp_eq (flip r) after_cmp || cmp_eq (flip r) equal_cmp)
        ≡ (cmp_eq r before_cmp || cmp_eq r equal_cmp)
  unfolding flip
  descendant_flip concurrent_cmp = refl
  descendant_flip before_cmp = refl
  descendant_flip after_cmp = refl
  descendant_flip equal_cmp = refl

  -- `descendant` is `ancestor` with the sides exchanged.
  pub descendant-ancestor :
      (c d : Option (Counters V))
      → IsValid num c
      → IsValid num d
      → descendant num d c ≡ ancestor num c d
  unfolding descendant ancestor
  descendant-ancestor c d hc hd = rw (compare-flip c d hc hd) (descendant_flip (compare num c d))
