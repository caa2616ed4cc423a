-- ===== src/Counters/Determinism/Views.antt =====
-- Two lists of entries that stand for one map give one answer, in every view and in `Compare`.
use causalclock.Base.{
  Str, str_eq, str_eq_refl, true, Option, some, List, [], ◌∷◌, keys, lookup, value_at, length,
  Distinct, Bool-cases, inl, inr, ◌≡◌, refl, sym, ap, ◌∙◌, arith, suc,
}
use causalclock.Counter.{Counter}
use causalclock.Counters.Comparison.{Comparison, concurrent_cmp, before_cmp, after_cmp, equal_cmp}
use causalclock.Counters.Defs.{Counters, entries_of, get}
use causalclock.Counters.Compare.{is_nil, compare}
use causalclock.Counters.Listing.{
  insert_sorted, sort, nodes, len, string_loop, string_nodes, string,
}
use causalclock.Counters.Spec.{IsValid, Related}
use causalclock.Counters.Order.Sound.{compare-Related, compare-eq_iff}
use causalclock.Counters.Members.{has, lookup_of_has-false}
use causalclock.Counters.Determinism.Sorted.{
  IsSorted, keys-IsNodup, has-sort, sort-IsSorted, IsSorted-unique,
}

length-insert_sorted : (k : Str) (js : List Str) → length (insert_sorted k js) ≡ suc (length js)
unfolding insert_sorted
length-insert_sorted k [] = refl
length-insert_sorted k (j ∷ js) = ground (arith, length-insert_sorted k js)

length-sort : (ks : List Str) → length (sort ks) ≡ length ks
unfolding sort
length-sort [] = refl
length-sort (k ∷ ks) = length-insert_sorted k (sort ks) ∙ ap suc (length-sort ks)

module _ {V : Type 0} where
  -- The same map: every key is bound to the same value, or to none on both sides.
  abbrev pub Same : Option (Counters V) → Option (Counters V) → Type 0
  Same c d = (k : Str) → lookup k (entries_of c) ≡ lookup k (entries_of d)

  length-keys : (m : List (Str × V)) → length (keys m) ≡ length m
  length-keys [] = refl
  length-keys ((k, v) ∷ m) = ap suc (length-keys m)

  -- `nodes` lists every key of the map once, in strictly rising order, and `len` counts them.
  pub nodes-IsSorted :
      (c : Option (Counters V))
      → Distinct (entries_of c)
      → IsSorted (nodes c)
        × ((k : Str) → has k (nodes c) ≡ has k (keys (entries_of c)))
        × (length (nodes c) ≡ len c)
  unfolding nodes len
  nodes-IsSorted c d = (
    sort-IsSorted (keys (entries_of c)) (keys-IsNodup (entries_of c) d),
    λ k. has-sort k (keys (entries_of c)),
    length-sort (keys (entries_of c)) ∙ length-keys (entries_of c),
  )

  lookup_of_has :
      (k : Str) (m : List (Str × V)) → has k (keys m) ≡ true → (v : V) × (lookup k m ≡ some v)
  unfolding lookup
  lookup_of_has k [] h = ground arith
  lookup_of_has k ((j, v) ∷ m) h = elim (Bool-cases (str_eq j k)) [
    | inl e ↦ (v, rw e)
    | inr e ↦ rw e (lookup_of_has k m (ground arith))
  ]

  has_of_same :
      (m n : List (Str × V))
      → ((k : Str) → lookup k m ≡ lookup k n)
      → (k : Str) → has k (keys m) ≡ has k (keys n)
  has_of_same m n h k = elim (Bool-cases (has k (keys m))) [
    | inl e ↦ elim (Bool-cases (has k (keys n))) [
      | inl f ↦ ground arith
      | inr f ↦ let (v, p) = lookup_of_has k m e in cc (h k, p, lookup_of_has-false k n f)
    ]
    | inr e ↦ elim (Bool-cases (has k (keys n))) [
      | inl f ↦ let (v, p) = lookup_of_has k n f in cc (h k, p, lookup_of_has-false k m e)
      | inr f ↦ ground arith
    ]
  ]

  -- `nodes` does not depend on the order of the entries.
  pub nodes_deterministic :
      (c d : Option (Counters V))
      → Distinct (entries_of c)
      → Distinct (entries_of d)
      → Same c d
      → nodes c ≡ nodes d
  nodes_deterministic c d hc hd s =
      let (sc, kc, lc) = nodes-IsSorted c hc in
      let (sd, kd, ld) = nodes-IsSorted d hd in
      IsSorted-unique (nodes c) (nodes d) sc sd
        (λ k. kc k ∙ has_of_same (entries_of c) (entries_of d) s k ∙ sym (kd k))

  is_nil_of_same :
      (m n : List (Str × V)) → ((k : Str) → lookup k m ≡ lookup k n) → is_nil m ≡ is_nil n
  unfolding lookup
  is_nil_of_same [] [] h = refl
  is_nil_of_same [] ((k, v) ∷ n) h = ground (arith, h k, str_eq_refl k)
  is_nil_of_same ((k, v) ∷ m) [] h = ground (arith, h k, str_eq_refl k)
  is_nil_of_same (e ∷ m) (f ∷ n) h = refl

module _ {V : Type 0} (num : Counter V) where
  open num use {origin}

  value_of_same :
      (m n : List (Str × V)) (k : Str)
      → lookup k m ≡ lookup k n
      → value_at origin k m ≡ value_at origin k n
  unfolding value_at
  value_of_same m n k h = ground arith

  string_loop_same :
      (m n : List (Str × V)) (ks : List Str)
      → ((k : Str) → lookup k m ≡ lookup k n)
      → (string_loop num m ks ≡ string_loop num n ks)
        × (string_nodes num m ks ≡ string_nodes num n ks)
  unfolding string_nodes
  string_loop_same m n [] h = (refl, refl)
  string_loop_same m n (k ∷ ks) h =
      let rest = (string_loop_same m n ks h).0 in
      let value = value_of_same m n k (h k) in (rw (value, rest), rw (value, rest))

  -- `string` does not depend on the order of the entries, where the keys are distinct.
  pub string_deterministic :
      (c d : Option (Counters V))
      → Distinct (entries_of c)
      → Distinct (entries_of d)
      → Same c d
      → string num c ≡ string num d
  unfolding string
  string_deterministic c d hc hd s = ground (
    arith,
    is_nil_of_same (entries_of c) (entries_of d) s,
    nodes_deterministic c d hc hd s,
    (string_loop_same (entries_of c) (entries_of d) (nodes d) s).1,
  )

  Related-of_Same :
      (c c' d d' : Option (Counters V)) (r : Comparison)
      → ((k : Str) → get num c k ≡ get num c' k)
      → ((k : Str) → get num d k ≡ get num d' k)
      → Related num c' d' r
      → Related num c d r
  Related-of_Same c c' d d' concurrent_cmp p q h =
      ((h.0.0, rw (p h.0.0, q h.0.0) (h.0.1)), (h.1.0, rw (p h.1.0, q h.1.0) (h.1.1)))
  Related-of_Same c c' d d' before_cmp p q h =
      (λ k. rw (p k, q k) (h.0 k), (h.1.0, rw (p h.1.0, q h.1.0) (h.1.1)))
  Related-of_Same c c' d d' after_cmp p q h =
      (λ k. rw (p k, q k) (h.0 k), (h.1.0, rw (p h.1.0, q h.1.0) (h.1.1)))
  Related-of_Same c c' d d' equal_cmp p q h = λ k. p k ∙ h k ∙ sym (q k)

  pub get-of_Same : (c d : Option (Counters V)) → Same c d → (k : Str) → get num c k ≡ get num d k
  unfolding get
  get-of_Same c d s k = value_of_same (entries_of c) (entries_of d) k (s k)

  -- `compare` does not depend on the order of the entries of either side.
  pub compare_deterministic :
      (c c' d d' : Option (Counters V))
      → IsValid num c
      → IsValid num c'
      → IsValid num d
      → IsValid num d'
      → Same c c'
      → Same d d'
      → compare num c d ≡ compare num c' d'
  compare_deterministic c c' d d' hc hc' hd hd' p q =
      (compare-eq_iff num c d (compare num c' d') hc hd).1 (
        Related-of_Same c c' d d' (compare num c' d') (get-of_Same c c' p) (get-of_Same d d' q)
          (compare-Related num c' d' hc' hd'))
