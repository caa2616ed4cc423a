-- ===== src/Counters/Order/Sound.antt =====
-- The answer of `Compare` names the relation that holds, on every branch of it.
use causalclock.Base.{
  Option, ◌↔◌, Str, Bool, true, false, List, [], ◌∷◌, any, lookup, value_at, Distinct, ◌≡◌, refl,
  arith, Bool-cases, inl, inr, str_eq_refl, str_eq_iff,
}
use causalclock.Counter.{Counter, less_irrefl}
use causalclock.Counters.Comparison.{
  Comparison, concurrent_cmp, before_cmp, after_cmp, equal_cmp, classify,
}
use causalclock.Counters.Defs.{Counters, entries_of, get}
use causalclock.Counters.Spec.{IsValid, Related}
use causalclock.Counters.Compare.{compare, compare_maps, all_nodes, has_positive, compare_loop}
use causalclock.Counters.Members.{has-all_nodes, any_found}
use causalclock.Counters.Order.Loop.{exceeds_at, exceeds, compare_loop-classify, exceeds-false}

module _ {V : Type 0} (num : Counter V) where
  open num use {origin, less}

  abbrev value : List (Str × V) → Str → V
  value m k = value_at origin k m

  -- `Related`, on the entries.
  abbrev MapRelated : List (Str × V) → List (Str × V) → Comparison → Type 0
  MapRelated m n concurrent_cmp =
      ((k : Str) × (less (value n k) (value m k) ≡ true))
      × ((k : Str) × (less (value m k) (value n k) ≡ true))
  MapRelated m n before_cmp =
      ((k : Str) → less (value n k) (value m k) ≡ false)
      × ((k : Str) × (less (value m k) (value n k) ≡ true))
  MapRelated m n after_cmp =
      ((k : Str) → less (value m k) (value n k) ≡ false)
      × ((k : Str) × (less (value n k) (value m k) ≡ true))
  MapRelated m n equal_cmp = (k : Str) → value m k ≡ value n k

  -- An entry of a map with distinct keys is what its key reads.
  positive_found :
      (m : List (Str × V))
      → Distinct m
      → has_positive num m ≡ true
      → (k : Str) × (less origin (value m k) ≡ true)
  unfolding has_positive value_at lookup
  positive_found [] d h = ground arith
  positive_found ((j, v) ∷ m) d h = elim (Bool-cases (less origin v)) [
    | inl e ↦ (j, ground (arith, str_eq_refl j))
    | inr e ↦
        let (k, p) = positive_found m d.1 (ground arith) in
        (k, ground (arith, str_eq_iff j k, less_irrefl num origin))
  ]

  positive_none :
      (m : List (Str × V))
      → has_positive num m ≡ false
      → (k : Str) → less origin (value m k) ≡ false
  unfolding has_positive value_at lookup
  positive_none [] h k = less_irrefl num origin
  positive_none ((j, v) ∷ m) h k = ground (arith, positive_none m (ground arith) k)

  classify-Related :
      (m n : List (Str × V)) (g l : Bool)
      → exceeds num m n ≡ g
      → any (exceeds_at num n m) (all_nodes m n) ≡ l
      → MapRelated m n (classify g l)
  unfolding classify
  classify-Related m n true true hg hl =
      (any_found (exceeds_at num m n) _ hg, any_found (exceeds_at num n m) _ hl)
  classify-Related m n true false hg hl = (
    exceeds-false num n m (all_nodes m n) (λ k. ground (arith, has-all_nodes k m n)) hl,
    any_found (exceeds_at num m n) _ hg,
  )
  classify-Related m n false true hg hl = (
    exceeds-false num m n (all_nodes m n) (λ k. has-all_nodes k m n) hg,
    any_found (exceeds_at num n m) _ hl,
  )
  classify-Related m n false false hg hl = λ k.
      num.less_total (value m k) (value n k)
        (exceeds-false num n m (all_nodes m n) (λ j. ground (arith, has-all_nodes j m n)) hl k)
        (exceeds-false num m n (all_nodes m n) (λ j. has-all_nodes j m n) hg k)

  loop-Related :
      (m n : List (Str × V)) → MapRelated m n (compare_loop num m n (all_nodes m n) false false)
  loop-Related m n =
      rw (compare_loop-classify num m n (all_nodes m n) false false refl)
        (classify-Related m n _ _ refl refl)

  maps-Related :
      (m n : List (Str × V))
      → Distinct m
      → Distinct n
      → ((k : Str) → less (value m k) origin ≡ false)
      → ((k : Str) → less (value n k) origin ≡ false)
      → MapRelated m n (compare_maps num m n)
  unfolding compare_maps value_at lookup
  maps-Related [] [] dm dn pm pn = λ k. refl
  maps-Related [] (e ∷ n) dm dn pm pn = elim (Bool-cases (has_positive num (e ∷ n))) [
    | inl h ↦ rw h (pn, positive_found (e ∷ n) dn h)
    | inr h ↦ rw h (λ k. num.less_total _ _ (positive_none (e ∷ n) h k) (pn k))
  ]
  maps-Related (e ∷ m) [] dm dn pm pn = elim (Bool-cases (has_positive num (e ∷ m))) [
    | inl h ↦ rw h (pm, positive_found (e ∷ m) dm h)
    | inr h ↦ rw h (λ k. num.less_total _ _ (pm k) (positive_none (e ∷ m) h k))
  ]
  maps-Related (e ∷ m) (f ∷ n) dm dn pm pn = loop-Related (e ∷ m) (f ∷ n)

  -- The step from entries to pointers.
  Related-of_map :
      (c d : Option (Counters V)) (r : Comparison)
      → MapRelated (entries_of c) (entries_of d) r
      → Related num c d r
  unfolding get
  Related-of_map c d concurrent_cmp h = h
  Related-of_map c d before_cmp h = h
  Related-of_map c d after_cmp h = h
  Related-of_map c d equal_cmp h = h

  -- On valid sides the answer of `compare` names a relation that holds between the counters.
  pub compare-Related :
      (c d : Option (Counters V))
      → IsValid num c
      → IsValid num d
      → Related num c d (compare num c d)
  unfolding compare get
  compare-Related c d hc hd =
      Related-of_map c d _
        (maps-Related (entries_of c) (entries_of d) hc.distinct hd.distinct hc.nonneg hd.nonneg)

  -- No two of the four relations hold at once.
  pub Related-unique :
      (c d : Option (Counters V)) (r s : Comparison) → Related num c d r → Related num c d s → r ≡ s
  Related-unique c d concurrent_cmp concurrent_cmp h k = refl
  Related-unique c d concurrent_cmp before_cmp h k = cc (h.0.1, k.0 h.0.0)
  Related-unique c d concurrent_cmp after_cmp h k = cc (h.1.1, k.0 h.1.0)
  Related-unique c d concurrent_cmp equal_cmp h k =
      cc (h.0.1, k h.0.0, less_irrefl num (get num d h.0.0))
  Related-unique c d before_cmp concurrent_cmp h k = cc (k.0.1, h.0 k.0.0)
  Related-unique c d before_cmp before_cmp h k = refl
  Related-unique c d before_cmp after_cmp h k = cc (h.1.1, k.0 h.1.0)
  Related-unique c d before_cmp equal_cmp h k =
      cc (h.1.1, k h.1.0, less_irrefl num (get num d h.1.0))
  Related-unique c d after_cmp concurrent_cmp h k = cc (k.1.1, h.0 k.1.0)
  Related-unique c d after_cmp before_cmp h k = cc (h.1.1, k.0 h.1.0)
  Related-unique c d after_cmp after_cmp h k = refl
  Related-unique c d after_cmp equal_cmp h k =
      cc (h.1.1, k h.1.0, less_irrefl num (get num d h.1.0))
  Related-unique c d equal_cmp concurrent_cmp h k =
      cc (k.0.1, h k.0.0, less_irrefl num (get num d k.0.0))
  Related-unique c d equal_cmp before_cmp h k =
      cc (k.1.1, h k.1.0, less_irrefl num (get num d k.1.0))
  Related-unique c d equal_cmp after_cmp h k =
      cc (k.1.1, h k.1.0, less_irrefl num (get num d k.1.0))
  Related-unique c d equal_cmp equal_cmp h k = refl

  -- Where both sides are maps with distinct keys and no negative counter, `compare` answers exactly
  -- the relation that holds between the counters that `get` returns.
  pub compare-eq_iff :
      (c d : Option (Counters V)) (r : Comparison)
      → IsValid num c
      → IsValid num d
      → (compare num c d ≡ r) ↔ Related num c d r
  compare-eq_iff c d r hc hd = (
    λ e. rw e at (compare-Related c d hc hd),
    λ h. Related-unique c d (compare num c d) r (compare-Related c d hc hd) h,
  )
