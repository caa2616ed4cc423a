-- ===== src/Base/Json/Canonical.antt =====
-- Maps whose entries stand in the order of their keys.
use mathlib.Core.Path.{◌≡◌, refl, ◌∙◌, sym}
use mathlib.Core.Bool.{true}
use mathlib.Core.Logic.{inl, inr}
use mathlib.Core.Option.{Option, none, some}
use mathlib.Core.List.{List, [], ◌∷◌}
use native.Mathlib.Omega.{arith}
use causalclock.Base.Tests.{Bool-cases}
use causalclock.Base.Lists.{All}
use causalclock.Base.Strings.{Str, str_eq_iff, str_eq_refl, str_ltb, Str-cases}
use causalclock.Base.StrOrder.{str_ltb_trans, str_ltb_total}
use causalclock.Base.Entries.{lookup, Distinct}
use causalclock.Base.Json.{place, sort_entries}
use causalclock.Base.Json.Sorting.{IsRising, lookup_above, sort_entries-Distinct}

module _ {V : Type 0} where
  -- Every key of the entries is above the string.
  abbrev Above : Str → List (Str × V) → Type 0
  Above k m = All (λ e. str_ltb k e.0 ≡ true) m

  Above-trans : (x y : Str) (m : List (Str × V)) → str_ltb x y ≡ true → Above y m → Above x m
  Above-trans x y [] h a = tt
  Above-trans x y (e ∷ m) h a = (str_ltb_trans x y e.0 h a.0, Above-trans x y m h a.1)

  Above-place :
      (x k : Str) (v : V) (m : List (Str × V))
      → str_ltb x k ≡ true
      → Above x m
      → Above x (place k v m)
  unfolding place
  Above-place x k v [] h a = (h, tt)
  Above-place x k v ((j, w) ∷ m) h a = elim (Bool-cases (str_ltb k j)) [
    | inl e ↦ rw e (h, a)
    | inr e ↦ rw e (a.0, Above-place x k v m h a.1)
  ]

  place-IsRising :
      (k : Str) (v : V) (m : List (Str × V))
      → lookup k m ≡ none
      → IsRising m
      → IsRising (place k v m)
  unfolding place lookup
  place-IsRising k v [] h r = (tt, tt)
  place-IsRising k v ((j, w) ∷ m) h r = elim (Bool-cases (str_ltb k j)) [
    | inl e ↦ rw e ((e, Above-trans k j m e r.0), r)
    | inr e ↦
        let less : str_ltb j k ≡ true =
          str_ltb_total k j (ground (arith, str_eq_iff k j, str_eq_iff j k)) e in
        rw e (Above-place j k v m less r.0, place-IsRising k v m (ground arith) r.1)
  ]

  sort_entries-IsRising : (m : List (Str × V)) → Distinct m → IsRising (sort_entries m)
  unfolding sort_entries
  sort_entries-IsRising [] d = tt
  sort_entries-IsRising ((k, v) ∷ m) d =
      place-IsRising k v (sort_entries m) (rw ((sort_entries-Distinct m d.1).1 k) d.0)
        (sort_entries-IsRising m d.1)

  -- The smallest key of the one list is no key of a list whose keys are all larger.
  head_missing :
      (k j : Str) (w : V) (n : List (Str × V))
      → str_ltb k j ≡ true
      → Above j n
      → lookup k ((j, w) ∷ n) ≡ none
  head_missing k j w n h a = lookup_above k ((j, w) ∷ n) (h, Above-trans k j n h a)

  head_value : (k : Str) (v : V) (m : List (Str × V)) → lookup k ((k, v) ∷ m) ≡ some v
  unfolding lookup
  head_value k v m = rw (str_eq_refl k) refl

  some_ne_none : (v : V) → ◌≡◌ {A = Option V} (some v) none → ⊥
  some_ne_none v h = cc

  heads_eq :
      (k j : Str) (v w : V) (m n : List (Str × V))
      → Above k m
      → Above j n
      → ((x : Str) → lookup x ((k, v) ∷ m) ≡ lookup x ((j, w) ∷ n))
      → (k ≡ j) × (v ≡ w)
  unfolding lookup
  heads_eq k j v w m n a b h = elim (Str-cases k j) [
    | inl e ↦ (e, ground (arith, h k, e, str_eq_refl k, str_eq_refl j))
    | inr (off, flip, ne) ↦ elim (Bool-cases (str_ltb k j)) [
      | inl less ↦
          absurd (some_ne_none v (sym (head_value k v m) ∙ h k ∙ head_missing k j w n less b))
      | inr more ↦ absurd (
          some_ne_none w (
            sym (head_value j w n)
            ∙ sym (h j)
            ∙ head_missing j k v m (str_ltb_total k j off more) a))
    ]
  ]

  -- Two rising lists that give the same values are one list.
  IsRising-unique :
      (m n : List (Str × V))
      → IsRising m
      → IsRising n
      → ((x : Str) → lookup x m ≡ lookup x n)
      → m ≡ n
  unfolding lookup
  IsRising-unique [] [] r s h = refl
  IsRising-unique [] ((j, w) ∷ n) r s h = absurd (ground (arith, h j, str_eq_refl j))
  IsRising-unique ((k, v) ∷ m) [] r s h = absurd (ground (arith, h k, str_eq_refl k))
  IsRising-unique ((k, v) ∷ m) ((j, w) ∷ n) r s h =
      let (e, f) = heads_eq k j v w m n r.0 s.0 h in
      let rest : m ≡ n = IsRising-unique m n r.1 s.1 (λ x. ground (
        arith,
        h x,
        e,
        str_eq_iff k x,
        str_eq_iff j x,
        lookup_above k m r.0,
        lookup_above j n s.0,
      )) in
      cc (e, f, rest)

  -- The order of a map's entries does not matter to the sorted ones.
  pub sort_entries_same :
      (m n : List (Str × V))
      → Distinct m
      → Distinct n
      → ((x : Str) → lookup x m ≡ lookup x n)
      → sort_entries m ≡ sort_entries n
  sort_entries_same m n d d' h =
      IsRising-unique (sort_entries m) (sort_entries n) (sort_entries-IsRising m d)
        (sort_entries-IsRising n d')
        (λ x. (sort_entries-Distinct m d).1 x ∙ h x ∙ sym ((sort_entries-Distinct n d').1 x))
