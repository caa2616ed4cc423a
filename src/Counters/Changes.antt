-- ===== src/Counters/Changes.antt =====
-- Every operation that changes a map of counters keeps a valid one valid.
use causalclock.Base.{
  Str, str_eq_iff, true, false, Option, none, some, List, [], ◌∷◌, insert, lookup, lookup-insert,
  value_at, value_at-insert, insert-Distinct, Distinct, Option-cases, ◌≡◌, ◌≢◌, refl, arith, inl,
  inr,
}
use causalclock.Counter.{Counter, join, join-ge_left, less_irrefl}
use causalclock.Counters.Defs.{
  Counters, made, entries_of, new_loop, new, copy_loop, copy, increment, get, set, merge_entry,
  merge_loop, merge,
}
use causalclock.Counters.Spec.{IsValid}
use causalclock.Counters.Reads.{get-set, get-increment, get-merge}

module _ {V : Type 0} where
  copy_loop-Distinct : (m r : List (Str × V)) → Distinct m → Distinct (copy_loop m r)
  unfolding copy_loop
  copy_loop-Distinct m [] d = d
  copy_loop-Distinct m ((k, v) ∷ r) d =
      copy_loop-Distinct (insert k v m) r (insert-Distinct k v m d)

  lookup-copy_loop :
      (m r : List (Str × V)) (j : Str)
      → Distinct r
      → lookup j (copy_loop m r) ≡ elim (lookup j r) [ none ↦ lookup j m | some v ↦ some v ]
  unfolding copy_loop lookup
  lookup-copy_loop m [] j d = refl
  lookup-copy_loop m ((k, v) ∷ r) j d =
      ground (arith, lookup-copy_loop (insert k v m) r j d.1, lookup-insert k j v m, str_eq_iff k j)

module _ {V : Type 0} (num : Counter V) where
  open num use {origin, less}

  new_loop-Distinct :
      (m : List (Str × V)) (ks : List Str) → Distinct m → Distinct (new_loop num m ks)
  unfolding new_loop
  new_loop-Distinct m [] d = d
  new_loop-Distinct m (k ∷ ks) d =
      new_loop-Distinct (insert k origin m) ks (insert-Distinct k origin m d)

  value-new_loop :
      (m : List (Str × V)) (ks : List Str) (j : Str)
      → value_at origin j m ≡ origin
      → value_at origin j (new_loop num m ks) ≡ origin
  unfolding new_loop
  value-new_loop m [] j h = h
  value-new_loop m (k ∷ ks) j h =
      value-new_loop (insert k origin m) ks j (ground (arith, value_at-insert origin k j origin m))

  -- A new map reads zero at every node, named or not.
  pub get-new : (nodes : List Str) (k : Str) → get num (some (new num nodes)) k ≡ origin
  unfolding get new
  get-new nodes k = value-new_loop [] nodes k (unfold value_at lookup in refl)

  pub new-IsValid : (nodes : List Str) → IsValid num (some (new num nodes))
  new-IsValid nodes = record {
    distinct = unfold new in new_loop-Distinct [] nodes tt;
    nonneg = λ k. rw (get-new nodes k) (less_irrefl num origin);
  }

  -- A nil pointer counts as valid.
  pub none-IsValid : IsValid num none
  unfolding get value_at lookup
  none-IsValid = record { distinct = tt; nonneg = λ k. less_irrefl num origin }

  -- A copy maps the same nodes to the same values, zero entries included.
  pub lookup-copy :
      (c : Option (Counters V)) (k : Str)
      → IsValid num c
      → lookup k (entries_of (some (copy num c))) ≡ lookup k (entries_of c)
  unfolding copy lookup
  lookup-copy none k h = refl
  lookup-copy (some c) k h = ground (arith, lookup-copy_loop [] (made c) k h.distinct)

  pub get-copy :
      (c : Option (Counters V)) (k : Str)
      → IsValid num c
      → get num (some (copy num c)) k ≡ get num c k
  unfolding get value_at
  get-copy c k h = ground (arith, lookup-copy c k h)

  copy-Distinct : (c : Option (Counters V)) → Distinct (entries_of (some (copy num c)))
  unfolding copy
  copy-Distinct none = tt
  copy-Distinct (some c) = copy_loop-Distinct [] (made c) tt

  pub copy-IsValid : (c : Option (Counters V)) → IsValid num c → IsValid num (some (copy num c))
  copy-IsValid c h = record {
    distinct = copy-Distinct c;
    nonneg = λ k. rw (get-copy c k h) (h.nonneg k);
  }

  -- Storing a value that is not negative.
  pub set-IsValid :
      (c : Counters V) (node : Str) (v : V)
      → IsValid num (some c)
      → less v origin ≡ false
      → IsValid num (some (set num c node v))
  set-IsValid c node v h hv = record {
    distinct = unfold set in insert-Distinct node v (made c) h.distinct;
    nonneg = λ k. rw (get-set num c node k v) (ground (arith, h.nonneg k));
  }

  -- A successor of a value that is not negative, short of the wrap, is not negative.
  inc_nonneg :
      (v : V)
      → less v origin ≡ false
      → num.in_range v ≡ true
      → v ≢ num.top
      → less (num.inc v) origin ≡ false
  inc_nonneg v h r t =
      num.ge_trans (num.inc v) v origin (num.less_asym v (num.inc v) (num.less-inc v r t)) h

  -- Incrementing a counter that has not reached the largest value.
  pub increment-IsValid :
      (c : Counters V) (node : Str)
      → IsValid num (some c)
      → num.in_range (get num (some c) node) ≡ true
      → get num (some c) node ≢ num.top
      → IsValid num (some (increment num c node).0)
  increment-IsValid c node h r t = record {
    distinct = unfold increment in insert-Distinct node _ (made c) h.distinct;
    nonneg = λ k.
        rw ((get-increment num c node k).0)
          (ground (arith, h.nonneg k, inc_nonneg (get num (some c) node) (h.nonneg node) r t));
  }

  merge_entry-Distinct :
      (m : List (Str × V)) (k : Str) (v : V) → Distinct m → Distinct (merge_entry num m k v)
  unfolding merge_entry
  merge_entry-Distinct m k v d =
      ground (arith, insert-Distinct k v m d, insert-Distinct k origin m d)

  merge_loop-Distinct : (m r : List (Str × V)) → Distinct m → Distinct (merge_loop num m r)
  unfolding merge_loop
  merge_loop-Distinct m [] d = d
  merge_loop-Distinct m ((k, v) ∷ r) d =
      merge_loop-Distinct (merge_entry num m k v) r (merge_entry-Distinct m k v d)

  merge-Distinct :
      (c : Counters V) (d : Option (Counters V))
      → Distinct (made c)
      → Distinct (made (merge num c d))
  unfolding merge
  merge-Distinct c none h = h
  merge-Distinct c (some d) h = elim (Option-cases d.entries) [
    | inl e ↦ rw e h
    | inr (o, e) ↦ rw e (merge_loop-Distinct (made c) o h)
  ]

  -- Merging valid maps.
  pub merge-IsValid :
      (c : Counters V) (d : Option (Counters V))
      → IsValid num (some c)
      → IsValid num d
      → IsValid num (some (merge num c d))
  merge-IsValid c d hc hd = record {
    distinct = merge-Distinct c d hc.distinct;
    nonneg = λ k. rw (get-merge num c d k hc hd) (
        num.ge_trans (join num (get num (some c) k) (get num d k)) (get num (some c) k) origin
          (join-ge_left num (get num (some c) k) (get num d k)) (hc.nonneg k));
  }
