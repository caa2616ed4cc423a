-- ===== src/Counters/Keys.antt =====
-- Which keys a merge tracks.
use causalclock.Base.{
  Str, str_eq, str_eq_iff, false, Option, none, some, List, [], ◌∷◌, keys, Distinct, Option-cases,
  Bool-cases, inl, inr, ◌||◌, ◌≡◌, refl, arith,
}
use causalclock.Counter.{Counter}
use causalclock.Counters.Defs.{Counters, made, entries_of, get, merge_entry, merge_loop, merge}
use causalclock.Counters.Spec.{IsValid}
use causalclock.Counters.Members.{has, has-insert, value_at_of_has-false}
use causalclock.Counters.Reads.{NonNeg, NonNeg-merge_entry, NonNeg-head, NonNeg-tail}

module _ {V : Type 0} (num : Counter V) where
  open num use {origin, less}

  -- An entry that is not negative leaves its key in the map.
  has-merge_entry :
      (m : List (Str × V)) (k j : Str) (v : V)
      → NonNeg num m
      → less v origin ≡ false
      → has j (keys (merge_entry num m k v)) ≡ (str_eq k j || has j (keys m))
  unfolding merge_entry
  has-merge_entry m k j v h hv = elim (Bool-cases (has k (keys m))) [
    | inl e ↦ ground (arith, has-insert j k v m, has-insert j k origin m, str_eq_iff k j, e)
    | inr e ↦ ground (
      arith,
      has-insert j k v m,
      has-insert j k origin m,
      value_at_of_has-false origin k m e,
      num.is_zero_iff origin,
      num.is_zero_iff v,
      num.less_total v origin,
    )
  ]

  has-merge_loop :
      (m o : List (Str × V)) (j : Str)
      → Distinct o
      → NonNeg num m
      → NonNeg num o
      → has j (keys (merge_loop num m o)) ≡ (has j (keys o) || has j (keys m))
  unfolding merge_loop
  has-merge_loop m [] j d hm ho = refl
  has-merge_loop m ((k, v) ∷ r) j d hm ho =
      let hv = NonNeg-head num k v r ho in
      ground (
        arith,
        has-merge_loop (merge_entry num m k v) r j d.1 (NonNeg-merge_entry num m k v hm hv)
            (NonNeg-tail num k v r d.0 ho),
        has-merge_entry m k j v hm hv,
      )

  -- A merge of valid maps tracks the nodes of both sides and no others, those at zero included.
  pub keys-merge :
      (c : Counters V) (d : Option (Counters V)) (j : Str)
      → IsValid num (some c)
      → IsValid num d
      → has j (keys (made (merge num c d))) ≡ (has j (keys (entries_of d)) || has j (keys (made c)))
  unfolding merge get
  keys-merge c none j hc hd = refl
  keys-merge c (some d) j hc hd = elim (Option-cases d.entries) [
    | inl e ↦ rw e
    | inr (o, e) ↦
        let hd' : Distinct o = rw e at hd.distinct in
        let pd : NonNeg num o = rw e at hd.nonneg in
        rw e (has-merge_loop (made c) o j hd' hc.nonneg pd)
  ]
