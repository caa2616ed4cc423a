-- ===== src/Counters/Members.antt =====
-- Membership of keys as a Boolean test, through inserts and through `allNodes`.
use causalclock.Base.{
  Str, str_eq, str_eq_iff, Bool, true, false, none, List, [], ◌∷◌, any, keys, insert, lookup,
  value_at, ◌||◌, ◌≡◌, refl, Bool-cases, inl, inr, arith,
}
use causalclock.Counters.Compare.{mark, all_nodes}

abbrev pub has : Str → List Str → Bool
has k = any (λ j. str_eq j k)

module _ {V : Type 0} where
  pub has-insert :
      (k j : Str) (v : V) (m : List (Str × V))
      → has k (keys (insert j v m)) ≡ (str_eq j k || has k (keys m))
  unfolding insert
  has-insert k j v [] = refl
  has-insert k j v ((i, w) ∷ m) =
      ground (arith, str_eq_iff i j, str_eq_iff i k, str_eq_iff j k, has-insert k j v m)

  pub lookup_of_has-false :
      (k : Str) (m : List (Str × V)) → has k (keys m) ≡ false → lookup k m ≡ none
  unfolding lookup
  lookup_of_has-false k [] h = refl
  lookup_of_has-false k ((i, w) ∷ m) h = ground (arith, lookup_of_has-false k m)

  -- A key outside the map reads as the zero value.
  pub value_at_of_has-false :
      (z : V) (k : Str) (m : List (Str × V)) → has k (keys m) ≡ false → value_at z k m ≡ z
  unfolding value_at
  value_at_of_has-false z k m h = rw (lookup_of_has-false k m h, value_at)

has-mark :
    (k : Str) (s : List (Str × Unit {0})) (ks : List Str)
    → has k (keys (mark s ks)) ≡ (has k ks || has k (keys s))
unfolding mark
has-mark k s [] = refl
has-mark k s (j ∷ ks) = ground (arith, has-mark k (insert j tt s) ks, has-insert k j tt s)

-- `allNodes` holds the keys of both sides and no others.
pub has-all_nodes :
    {V : Type 0} (k : Str) (m n : List (Str × V))
    → has k (all_nodes m n) ≡ (has k (keys n) || has k (keys m))
unfolding all_nodes
has-all_nodes k m n = ground (arith, has-mark k (mark [] (keys m)) (keys n), has-mark k [] (keys m))

pub any_found : (p : Str → Bool) (ks : List Str) → any p ks ≡ true → (k : Str) × (p k ≡ true)
any_found p [] h = ground arith
any_found p (j ∷ ks) h = elim (Bool-cases (p j)) [
  | inl e ↦ (j, e)
  | inr e ↦ any_found p ks (ground arith)
]

pub any_none :
    (p : Str → Bool) (ks : List Str) (k : Str) → any p ks ≡ false → has k ks ≡ true → p k ≡ false
any_none p [] k h g = ground arith
any_none p (j ∷ ks) k h g = elim (Bool-cases (str_eq j k)) [
  | inl e ↦ rw (← (str_eq_iff j k).0 e) (ground arith)
  | inr e ↦ any_none p ks k (ground arith) (ground arith)
]
