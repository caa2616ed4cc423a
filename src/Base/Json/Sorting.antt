-- ===== src/Base/Json/Sorting.antt =====
-- The entries of a map in the order of their keys.
use mathlib.Core.Path.{◌≡◌, refl}
use mathlib.Core.Bool.{true}
use mathlib.Core.Logic.{inl, inr}
use mathlib.Core.Option.{none, some}
use mathlib.Core.List.{List, [], ◌∷◌}
use native.Mathlib.Omega.{arith}
use causalclock.Base.Tests.{if◌then◌else◌, Bool-cases}
use causalclock.Base.Lists.{All}
use causalclock.Base.Strings.{Str, str_eq, str_eq_iff, str_ltb}
use causalclock.Base.StrOrder.{str_ltb_irrefl}
use causalclock.Base.Entries.{lookup, Distinct}
use causalclock.Base.Json.{place, sort_entries}

module _ {V : Type 0} where
  lookup-place :
      (k j : Str) (v : V) (m : List (Str × V))
      → lookup k m ≡ none
      → lookup j (place k v m) ≡ (if str_eq k j then some v else lookup j m)
  unfolding lookup place
  lookup-place k j v [] h = refl
  lookup-place k j v ((i, w) ∷ m) h =
      ground (arith, str_eq_iff k j, str_eq_iff i k, str_eq_iff i j, lookup-place k j v m)

  place-Distinct :
      (k : Str) (v : V) (m : List (Str × V))
      → lookup k m ≡ none
      → Distinct m
      → Distinct (place k v m)
  unfolding lookup place
  place-Distinct k v [] h d = (refl, tt)
  place-Distinct k v ((i, w) ∷ m) h d =
      ground (arith, str_eq_iff i k, str_eq_iff k i, lookup-place k i v m, place-Distinct k v m)

  -- Sorting keeps the entries.
  pub sort_entries-Distinct :
      (m : List (Str × V))
      → Distinct m
      → Distinct (sort_entries m) × ((j : Str) → lookup j (sort_entries m) ≡ lookup j m)
  unfolding lookup sort_entries
  sort_entries-Distinct [] d = (tt, λ j. refl)
  sort_entries-Distinct ((k, v) ∷ m) d =
      let (d', same) = sort_entries-Distinct m d.1 in
      let new : lookup k (sort_entries m) ≡ none = rw (same k) d.0 in
      (
        place-Distinct k v (sort_entries m) new d',
        λ j. ground (arith, lookup-place k j v (sort_entries m) new, same j),
      )

  place-All :
      (P : Str × V → Type 0) (k : Str) (v : V) (m : List (Str × V))
      → P (k, v)
      → All P m
      → All P (place k v m)
  unfolding place
  place-All P k v [] p a = (p, tt)
  place-All P k v ((j, w) ∷ m) p a = elim (Bool-cases (str_ltb k j)) [
    | inl e ↦ rw e (p, a)
    | inr e ↦ rw e (a.0, place-All P k v m p a.1)
  ]

  pub sort_entries-All :
      (P : Str × V → Type 0) (m : List (Str × V)) → All P m → All P (sort_entries m)
  unfolding sort_entries
  sort_entries-All P [] a = tt
  sort_entries-All P ((k, v) ∷ m) a =
      place-All P k v (sort_entries m) a.0 (sort_entries-All P m a.1)

  -- Entries whose keys rise.
  abbrev pub IsRising : List (Str × V) → Type 0
  IsRising [] = Unit
  IsRising ((k, v) ∷ m) = All (λ e. str_ltb k e.0 ≡ true) m × IsRising m

  place_first :
      (k : Str) (v : V) (m : List (Str × V))
      → All (λ e. str_ltb k e.0 ≡ true) m
      → place k v m ≡ (k, v) ∷ m
  unfolding place
  place_first k v [] a = refl
  place_first k v ((j, w) ∷ m) a = rw (a.0) refl

  -- Sorting leaves sorted entries as they are.
  pub sort_entries_rising : (m : List (Str × V)) → IsRising m → sort_entries m ≡ m
  unfolding sort_entries
  sort_entries_rising [] r = refl
  sort_entries_rising ((k, v) ∷ m) r = rw (sort_entries_rising m r.1) (place_first k v m r.0)

  pub lookup_above :
      (k : Str) (m : List (Str × V)) → All (λ e. str_ltb k e.0 ≡ true) m → lookup k m ≡ none
  unfolding lookup
  lookup_above k [] a = refl
  lookup_above k ((j, w) ∷ m) a =
      ground (arith, str_eq_iff j k, str_ltb_irrefl k, a.0, lookup_above k m a.1)

  pub IsRising-Distinct : (m : List (Str × V)) → IsRising m → Distinct m
  IsRising-Distinct [] r = tt
  IsRising-Distinct ((k, v) ∷ m) r = (lookup_above k m r.0, IsRising-Distinct m r.1)
