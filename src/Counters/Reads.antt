-- ===== src/Counters/Reads.antt =====
-- What `Get` returns after each change, and that each change keeps a valid state valid.
use causalclock.Base.{
  Option-cases, Str, str_eq, str_eq_refl, str_eq_iff, false, Option, none, some, List, [], ◌∷◌,
  lookup, value_at, value_at-insert, value_at-insert_self, Distinct, ◌≡◌, sym, arith, inl, inr,
  if◌then◌else◌,
}
use causalclock.Counter.{Counter, join, join_absorb, less_irrefl}
use causalclock.Counters.Defs.{Counters, made, increment, get, set, merge_entry, merge_loop, merge}
use causalclock.Counters.Spec.{IsValid}

module _ {V : Type 0} (num : Counter V) where
  open num use {origin, less}

  -- After `set` the node reads the value, and every other node reads as before.
  pub get-set :
      (c : Counters V) (node k : Str) (v : V)
      → get num (some (set num c node v)) k ≡ (if str_eq node k then v else get num (some c) k)
  unfolding get set
  get-set c node k v = value_at-insert origin node k v (made c)

  -- `increment` returns the value that the node then reads, the successor of what it read before.
  pub get-increment :
      (c : Counters V) (node k : Str)
      → (get num (some (increment num c node).0) k
          ≡ (if str_eq node k then num.inc (get num (some c) node) else get num (some c) k))
        × ((increment num c node).1 ≡ num.inc (get num (some c) node))
  unfolding get increment
  get-increment c node k =
      (value_at-insert origin node k _ (made c), value_at-insert_self origin node _ (made c))

  abbrev pub value : List (Str × V) → Str → V
  value m k = value_at origin k m

  abbrev pub NonNeg : List (Str × V) → Type 0
  NonNeg m = (k : Str) → less (value m k) origin ≡ false

  value-merge_entry :
      (m : List (Str × V)) (k j : Str) (v : V)
      → NonNeg m
      → less v origin ≡ false
      → value (merge_entry num m k v) j ≡ (if str_eq k j then join num (value m k) v else value m j)
  unfolding merge_entry join
  value-merge_entry m k j v h hv = ground (
    arith,
    value_at-insert origin k j v m,
    value_at-insert origin k j origin m,
    num.is_zero_iff (value m k),
    str_eq_iff k j,
  )

  -- What the entries behind the first one read.
  pub value-tail :
      (k j : Str) (v : V) (r : List (Str × V))
      → lookup k r ≡ none
      → (value ((k, v) ∷ r) j ≡ (if str_eq k j then v else value r j)) × (value r k ≡ origin)
  unfolding value_at lookup
  value-tail k j v r h = (ground arith, rw (h, value_at))

  pub NonNeg-tail :
      (k : Str) (v : V) (r : List (Str × V)) → lookup k r ≡ none → NonNeg ((k, v) ∷ r) → NonNeg r
  NonNeg-tail k v r h p j =
      ground (arith, p j, value-tail k j v r h, str_eq_iff k j, less_irrefl num origin)

  pub NonNeg-head :
      (k : Str) (v : V) (r : List (Str × V)) → NonNeg ((k, v) ∷ r) → less v origin ≡ false
  unfolding value_at lookup
  NonNeg-head k v r p = ground (arith, p k, str_eq_refl k)

  pub NonNeg-merge_entry :
      (m : List (Str × V)) (k : Str) (v : V)
      → NonNeg m
      → less v origin ≡ false
      → NonNeg (merge_entry num m k v)
  unfolding join
  NonNeg-merge_entry m k v h hv j = rw (value-merge_entry m k j v h hv) (ground (arith, h j, h k))

  -- The loop of `merge` leaves at each node the larger of the two values.
  value-merge_loop :
      (m o : List (Str × V)) (j : Str)
      → Distinct o
      → NonNeg m
      → NonNeg o
      → value (merge_loop num m o) j ≡ join num (value m j) (value o j)
  unfolding merge_loop value_at
  value-merge_loop m [] j d hm ho = sym (join_absorb num (value m j) origin (hm j))
  value-merge_loop m ((k, v) ∷ r) j d hm ho =
      let hv = NonNeg-head k v r ho in
      let hm' = NonNeg-merge_entry m k v hm hv in
      ground (
        arith,
        value-merge_loop (merge_entry num m k v) r j d.1 hm' (NonNeg-tail k v r d.0 ho),
        value-merge_entry m k j v hm hv,
        value-tail k j v r d.0,
        str_eq_iff k j,
        join_absorb num (join num (value m k) v) origin,
        hm' k,
        value-merge_entry m k k v hm hv,
        str_eq_refl k,
      )

  -- Where both sides are maps with distinct keys and no negative counter, `merge` leaves at every
  -- node the larger of the two values.
  pub get-merge :
      (c : Counters V) (d : Option (Counters V)) (k : Str)
      → IsValid num (some c)
      → IsValid num d
      → get num (some (merge num c d)) k ≡ join num (get num (some c) k) (get num d k)
  unfolding get merge value_at
  get-merge c none k hc hd = sym (join_absorb num _ origin (hc.nonneg k))
  get-merge c (some d) k hc hd = elim (Option-cases d.entries) [
    | inl e ↦ rw e (sym (join_absorb num _ origin (hc.nonneg k)))
    | inr (o, e) ↦
        let hd' : Distinct o = rw e at hd.distinct in
        let pd : NonNeg o = rw e at hd.nonneg in
        rw e (value-merge_loop (made c) o k hd' hc.nonneg pd)
  ]
