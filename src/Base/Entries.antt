-- ===== src/Base/Entries.antt =====
-- A Go map from strings, as the list of its entries with distinct keys. The order of the list is
-- the order in which a `range` loop meets the entries.
use mathlib.Core.Path.{◌≡◌, refl}
use mathlib.Core.Option.{Option, none, some}
use mathlib.Core.List.{List, [], ◌∷◌}
use native.Mathlib.Omega.{arith}
use causalclock.Base.Tests.{if◌then◌else◌}
use causalclock.Base.Strings.{Str, str_eq, str_eq_iff, str_eq_refl}

module _ {ℓ} {V : Type ℓ} where
  -- `v, ok := m[k]`
  unfoldable pub lookup : Str → List (Str × V) → Option V
  lookup k [] = none
  lookup k ((j, v) ∷ m) = if str_eq j k then some v else lookup k m

  -- `m[k] = v`
  unfoldable pub insert : Str → V → List (Str × V) → List (Str × V)
  insert k v [] = (k, v) ∷ []
  insert k v ((j, w) ∷ m) = if str_eq j k then (k, v) ∷ m else (j, w) ∷ insert k v m

  -- `for k := range m`
  abbrev pub keys : List (Str × V) → List Str
  keys [] = []
  keys ((k, v) ∷ m) = k ∷ keys m

  -- `m[k]`, which is the zero value `z` where the key is missing.
  unfoldable pub value_at : V → Str → List (Str × V) → V
  unfolding lookup
  value_at z k m = elim (lookup k m) [ none ↦ z | some v ↦ v ]

  -- What a Go map guarantees of its entries: no key stands twice.
  abbrev pub Distinct : List (Str × V) → Type ℓ
  Distinct [] = Unit
  Distinct ((k, v) ∷ m) = (lookup k m ≡ none) × Distinct m

  pub lookup-insert :
      (k j : Str) (v : V) (m : List (Str × V))
      → lookup j (insert k v m) ≡ (if str_eq k j then some v else lookup j m)
  unfolding lookup insert
  lookup-insert k j v [] = refl
  lookup-insert k j v ((i, w) ∷ m) =
      ground (arith, str_eq_iff k j, str_eq_iff i k, str_eq_iff i j, lookup-insert k j v m)

  pub insert-Distinct :
      (k : Str) (v : V) (m : List (Str × V)) → Distinct m → Distinct (insert k v m)
  unfolding insert lookup
  insert-Distinct k v [] d = (refl, tt)
  insert-Distinct k v ((j, w) ∷ m) d =
      ground
        (arith, str_eq_iff j k, str_eq_iff k j, lookup-insert k j v m, insert-Distinct k v m d.1)

  pub value_at-insert :
      (z : V) (k j : Str) (v : V) (m : List (Str × V))
      → value_at z j (insert k v m) ≡ (if str_eq k j then v else value_at z j m)
  unfolding value_at
  value_at-insert z k j v m = ground (arith, lookup-insert k j v m)

  pub value_at-insert_self :
      (z : V) (k : Str) (v : V) (m : List (Str × V)) → value_at z k (insert k v m) ≡ v
  value_at-insert_self z k v m = rw (value_at-insert, str_eq_refl)
