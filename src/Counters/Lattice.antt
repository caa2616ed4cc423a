-- ===== src/Counters/Lattice.antt =====
-- `Merge` is the least upper bound for the order that `Compare` decides.
use causalclock.Base.{◌↔◌, true, Option, some, ◌≡◌, sym, ap, ◌∙◌, arith}
use causalclock.Counter.{
  Counter, join, join-ge_left, join-ge_right, join-least, join_comm, join_assoc, join_absorb,
}
use causalclock.Counters.Comparison.{equal_cmp}
use causalclock.Counters.Defs.{Counters, get, merge}
use causalclock.Counters.Compare.{compare, ancestor}
use causalclock.Counters.Spec.{IsValid}
use causalclock.Counters.Reads.{get-merge}
use causalclock.Counters.Changes.{merge-IsValid}
use causalclock.Counters.Order.Sound.{compare-eq_iff}
use causalclock.Counters.Order.Laws.{ancestor_iff}

module _ {V : Type 0} (num : Counter V) where
  open num use {origin, less}

  ancestor_trans :
      (a b e : Option (Counters V))
      → IsValid num a
      → IsValid num b
      → IsValid num e
      → ancestor num a b ≡ true
      → ancestor num b e ≡ true
      → ancestor num a e ≡ true
  ancestor_trans a b e ha hb he p q = (ancestor_iff num a e ha he).1 (λ k.
      num.ge_trans (get num e k) (get num b k) (get num a k) ((ancestor_iff num b e hb he).0 q k)
        ((ancestor_iff num a b ha hb).0 p k))

  -- Both sides of a merge of valid maps are ancestors of the result.
  pub merge_upper_bound :
      (c : Counters V) (d : Option (Counters V))
      → IsValid num (some c)
      → IsValid num d
      → (ancestor num (some c) (some (merge num c d)) ≡ true)
        × (ancestor num d (some (merge num c d)) ≡ true)
  merge_upper_bound c d hc hd =
      let hm = merge-IsValid num c d hc hd in
      (
        (ancestor_iff num (some c) (some (merge num c d)) hc hm).1
            (λ k. rw (get-merge num c d k hc hd) (join-ge_left num _ _)),
        (ancestor_iff num d (some (merge num c d)) hd hm).1
            (λ k. rw (get-merge num c d k hc hd) (join-ge_right num _ _)),
      )

  -- The result of a merge of valid maps is an ancestor of every valid map of which both sides
  -- are ancestors.
  pub merge_least :
      (c : Counters V) (d e : Option (Counters V))
      → IsValid num (some c)
      → IsValid num d
      → IsValid num e
      → ancestor num (some c) e ≡ true
      → ancestor num d e ≡ true
      → ancestor num (some (merge num c d)) e ≡ true
  merge_least c d e hc hd he p q =
      (ancestor_iff num (some (merge num c d)) e (merge-IsValid num c d hc hd) he).1 (λ k.
        rw (get-merge num c d k hc hd) (
          join-least num _ _ _ ((ancestor_iff num (some c) e hc he).0 p k)
            ((ancestor_iff num d e hd he).0 q k)))

  -- The result of a merge of valid maps is an ancestor of exactly the valid maps of which both
  -- sides are ancestors: it is their least upper bound.
  pub merge_lub :
      (c : Counters V) (d e : Option (Counters V))
      → IsValid num (some c)
      → IsValid num d
      → IsValid num e
      → (ancestor num (some (merge num c d)) e ≡ true)
        ↔ ((ancestor num (some c) e ≡ true) × (ancestor num d e ≡ true))
  merge_lub c d e hc hd he =
      let hm = merge-IsValid num c d hc hd in
      let (left, right) = merge_upper_bound c d hc hd in
      (
        λ h. (
          ancestor_trans (some c) (some (merge num c d)) e hc hm he left h,
          ancestor_trans d (some (merge num c d)) e hd hm he right h,
        ),
        λ (p, q). merge_least c d e hc hd he p q,
      )

  -- The order in which two valid maps are merged does not show in the result.
  pub merge_comm :
      (c d : Counters V)
      → IsValid num (some c)
      → IsValid num (some d)
      → compare num (some (merge num c (some d))) (some (merge num d (some c))) ≡ equal_cmp
  merge_comm c d hc hd =
      (compare-eq_iff num _ _ equal_cmp (merge-IsValid num c (some d) hc hd)
          (merge-IsValid num d (some c) hd hc)).1
        (λ k.
          get-merge num c (some d) k hc hd
          ∙ join_comm num (get num (some c) k) (get num (some d) k)
          ∙ sym (get-merge num d (some c) k hd hc))

  -- Nor does the grouping of three.
  pub merge_assoc :
      (c d : Counters V) (e : Option (Counters V))
      → IsValid num (some c)
      → IsValid num (some d)
      → IsValid num e
      → compare num
          (some (merge num (merge num c (some d)) e))
          (some (merge num c (some (merge num d e))))
        ≡ equal_cmp
  merge_assoc c d e hc hd he =
      let hcd = merge-IsValid num c (some d) hc hd in
      let hde = merge-IsValid num d e hd he in
      (compare-eq_iff num _ _ equal_cmp (merge-IsValid num (merge num c (some d)) e hcd he)
          (merge-IsValid num c (some (merge num d e)) hc hde)).1
        (λ k.
          get-merge num (merge num c (some d)) e k hcd he
          ∙ ap (λ (v : V). join num v (get num e k)) (get-merge num c (some d) k hc hd)
          ∙ join_assoc num (get num (some c) k) (get num (some d) k) (get num e k)
          ∙ ap (join num (get num (some c) k)) (sym (get-merge num d e k hd he))
          ∙ sym (get-merge num c (some (merge num d e)) k hc hde))

  -- A merge with an ancestor changes nothing that can be read.
  pub merge_absorb :
      (c : Counters V) (d : Option (Counters V))
      → IsValid num (some c)
      → IsValid num d
      → ancestor num d (some c) ≡ true
      → compare num (some (merge num c d)) (some c) ≡ equal_cmp
  unfolding join
  merge_absorb c d hc hd p =
      (compare-eq_iff num _ _ equal_cmp (merge-IsValid num c d hc hd) hc).1
        (λ k. ground (arith, get-merge num c d k hc hd, (ancestor_iff num d (some c) hd hc).0 p k))

  -- Merging is commutative, associative and idempotent on valid maps: a message that arrives late,
  -- or out of order, or twice leaves a map that compares equal.
  pub merge_semilattice :
      (c d : Counters V) (e : Option (Counters V))
      → IsValid num (some c)
      → IsValid num (some d)
      → IsValid num e
      → (compare num (some (merge num c (some d))) (some (merge num d (some c))) ≡ equal_cmp)
        × (compare num
              (some (merge num (merge num c (some d)) e))
              (some (merge num c (some (merge num d e))))
            ≡ equal_cmp)
        × (compare num (some (merge num (merge num c e) e)) (some (merge num c e)) ≡ equal_cmp)
  merge_semilattice c d e hc hd he =
      let hce = merge-IsValid num c e hc he in
      (
        merge_comm c d hc hd,
        merge_assoc c d e hc hd he,
        (compare-eq_iff num _ _ equal_cmp (merge-IsValid num (merge num c e) e hce he) hce).1 (λ k.
            get-merge num (merge num c e) e k hce he
            ∙ rw (get-merge num c e k hc he) (
                join_absorb num (join num (get num (some c) k) (get num e k)) (get num e k)
                  (join-ge_right num (get num (some c) k) (get num e k)))),
      )
