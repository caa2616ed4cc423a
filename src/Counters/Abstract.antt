-- ===== src/Counters/Abstract.antt =====
-- The map of a clock without the order of its entries, and `Merge` on such maps.
use causalclock.Base.{
  Str, Bool, true, false, Option, none, some, List, [], ◌∷◌, keys, lookup, value_at, ◌||◌, ◌≡◌,
  refl, sym, ◌∙◌, arith, if◌then◌else◌,
}
use mathlib.Core.Path.{fun_ext}
use mathlib.Core.HLevel.{Π_set}
use mathlib.Core.Quot
use mathlib.Core.Quot.{Quot, Quot-set}
use causalclock.Counter.{Counter, join, join_idem, join_comm, join_assoc, join_absorb}
use causalclock.Counters.Changes.{new-IsValid, merge-IsValid}
use causalclock.Counters.Defs.{Counters, made, get, new, merge}
use causalclock.Counters.Keys.{keys-merge}
use causalclock.Counters.Members.{has, value_at_of_has-false}
use causalclock.Counters.Reads.{get-merge}
use causalclock.Counters.Spec.{IsValid}

lookup_of_has :
    {V : Type 0} (z : V) (k : Str) (m : List (Str × V))
    → lookup k m ≡ (if has k (keys m) then some (value_at z k m) else none)
unfolding lookup value_at
lookup_of_has z k [] = refl
lookup_of_has z k ((j, v) ∷ m) = ground (arith, lookup_of_has z k m)

module _ {V : Type 0} (num : Counter V) where
  open num use {origin, less}

  abbrev pub Valid : Type 0
  Valid = (c : Counters V) × IsValid num (some c)

  -- The same nodes with the same values.
  abbrev pub SameMap : Valid → Valid → Type 0
  SameMap c d = (k : Str) → lookup k (made c.0) ≡ lookup k (made d.0)

  abbrev pub Abstract : Type 0
  Abstract = Quot SameMap

  -- What a merge binds a node to: the larger value, or the one there is.
  abbrev both : Option V → Option V → Option V
  both none d = d
  both (some u) none = some u
  both (some u) (some v) = some (join num u v)

  both_comm : (a b : Option V) → both a b ≡ both b a
  both_comm none none = refl
  both_comm none (some v) = refl
  both_comm (some u) none = refl
  both_comm (some u) (some v) = rw (join_comm num u v)

  both_assoc : (a b c : Option V) → both (both a b) c ≡ both a (both b c)
  both_assoc none b c = refl
  both_assoc (some u) none c = refl
  both_assoc (some u) (some v) none = refl
  both_assoc (some u) (some v) (some w) = rw (join_assoc num u v w)

  both_idem : (a : Option V) → both a a ≡ a
  both_idem none = refl
  both_idem (some u) = rw (join_idem num u)

  both-none : (a : Option V) → both a none ≡ a
  both-none none = refl
  both-none (some u) = refl

  both_if :
      (p q : Bool) (u v : V)
      → (p ≡ false → u ≡ origin)
      → (q ≡ false → v ≡ origin)
      → less u origin ≡ false
      → less v origin ≡ false
      → (if q || p then some (join num u v) else none)
        ≡ both (if p then some u else none) (if q then some v else none)
  both_if true true u v hp hq hu hv = refl
  both_if true false u v hp hq hu hv =
      rw (let e : join num u v ≡ u = rw (hq refl) (join_absorb num u origin hu) in e)
  both_if false true u v hp hq hu hv = rw (
      let e : join num u v ≡ v =
        rw (hp refl) (join_comm num origin v ∙ join_absorb num v origin hv) in
      e)
  both_if false false u v hp hq hu hv = refl

  lookup-merge :
      (c d : Valid) (k : Str)
      → lookup k (made (merge num c.0 (some d.0)))
        ≡ both (lookup k (made c.0)) (lookup k (made d.0))
  unfolding get
  lookup-merge (c, hc) (d, hd) k =
      rw
        (
          lookup_of_has origin k (made (merge num c (some d))),
          lookup_of_has origin k (made c),
          lookup_of_has origin k (made d),
          keys-merge num c (some d) k hc hd,
          get-merge num c (some d) k hc hd,
        )
        (both_if (has k (keys (made c))) (has k (keys (made d))) (value_at origin k (made c))
          (value_at origin k (made d)) (value_at_of_has-false origin k (made c))
          (value_at_of_has-false origin k (made d)) (hc.nonneg k) (hd.nonneg k))

  merge_valid : Valid → Valid → Valid
  merge_valid c d = (merge num c.0 (some d.0), merge-IsValid num c.0 (some d.0) c.1 d.1)

  SameMap-merge :
      (c c' d d' : Valid)
      → SameMap c c'
      → SameMap d d'
      → SameMap (merge_valid c d) (merge_valid c' d')
  unfolding merge_valid
  SameMap-merge c c' d d' p q k = rw (lookup-merge c d k, lookup-merge c' d' k, p k, q k)

  SameMap-assoc :
      (x y z : Valid) → SameMap (merge_valid (merge_valid x y) z) (merge_valid x (merge_valid y z))
  unfolding merge_valid
  SameMap-assoc x y z k =
      rw
        (
          lookup-merge (merge_valid x y) z k,
          lookup-merge x y k,
          lookup-merge x (merge_valid y z) k,
          lookup-merge y z k,
        )
        (both_assoc (lookup k (made x.0)) (lookup k (made y.0)) (lookup k (made z.0)))

  -- Whatever is shown of all valid maps that an abstract map stands for.
  Quot-each :
      (f g : Abstract → Abstract)
      → ((c : Valid) → f (Quot.mk c) ≡ g (Quot.mk c))
      → (a : Abstract) → f a ≡ g a
  Quot-each f g h = Quot.ind (λ a. Quot-set _ _) h

  merged_into : Valid → Abstract → Abstract
  merged_into c =
      Quot.lift Quot-set (λ d. Quot.mk (merge_valid c d))
        (λ d d' q. Quot.sound (SameMap-merge c c d d' (λ k. refl) q))

  merged_into-SameMap :
      (c c' : Valid) → SameMap c c' → (b : Abstract) → merged_into c b ≡ merged_into c' b
  unfolding merged_into
  merged_into-SameMap c c' p =
      Quot-each (merged_into c) (merged_into c')
        (λ d. Quot.sound (SameMap-merge c c' d d p (λ k. refl)))

  -- `Merge` of abstract maps.
  pub merged : Abstract → Abstract → Abstract
  merged =
      Quot.lift (Π_set (λ b. Quot-set)) merged_into (λ c c' p. fun_ext (merged_into-SameMap c c' p))

  abbrev pub nothing : Valid
  nothing = (new num [], new-IsValid num [])

  merged_comm : (a b : Abstract) → merged a b ≡ merged b a
  unfolding merged merged_into merge_valid
  merged_comm a b =
      Quot-each (λ a'. merged a' b) (merged b)
        (λ c.
          Quot-each (merged (Quot.mk c)) (λ b'. merged b' (Quot.mk c))
            (λ d. Quot.sound (λ k.
              lookup-merge c d k
              ∙ both_comm (lookup k (made c.0)) (lookup k (made d.0))
              ∙ sym (lookup-merge d c k)))
            b)
        a

  merged_assoc : (a b c : Abstract) → merged (merged a b) c ≡ merged a (merged b c)
  unfolding merged merged_into merge_valid
  merged_assoc a b c =
      Quot-each (λ a'. merged (merged a' b) c) (λ a'. merged a' (merged b c))
        (λ x.
          Quot-each (λ b'. merged (merged (Quot.mk x) b') c)
            (λ b'. merged (Quot.mk x) (merged b' c))
            (λ y.
              Quot-each (merged (merged (Quot.mk x) (Quot.mk y)))
                (λ c'. merged (Quot.mk x) (merged (Quot.mk y) c'))
                (λ z. Quot.sound (SameMap-assoc x y z)) c)
            b)
        a

  merged_idem : (a : Abstract) → merged a a ≡ a
  unfolding merged merged_into merge_valid
  merged_idem =
      Quot-each (λ a. merged a a) (λ a. a)
        (λ c. Quot.sound (λ k. lookup-merge c c k ∙ both_idem (lookup k (made c.0))))

  merged-nothing : (a : Abstract) → merged a (Quot.mk nothing) ≡ a
  unfolding merged merged_into merge_valid lookup new
  merged-nothing =
      Quot-each (λ a. merged a (Quot.mk nothing)) (λ a. a)
        (λ c. Quot.sound (λ k. lookup-merge c nothing k ∙ both-none (lookup k (made c.0))))

  -- On maps without an order of their entries, `Merge` is commutative, associative and
  -- idempotent, and the new clock is its unit: a message that arrives late, out of order or twice
  -- leaves the same map, nodes at zero included.
  pub merged_semilattice :
      (a b c : Abstract)
      → (merged a b ≡ merged b a)
        × (merged (merged a b) c ≡ merged a (merged b c))
        × (merged a a ≡ a)
        × (merged a (Quot.mk nothing) ≡ a)
  merged_semilattice a b c = (merged_comm a b, merged_assoc a b c, merged_idem a, merged-nothing a)
