-- ===== src/Counters/Determinism/Sorted.antt =====
-- `sort` puts distinct strings in strictly rising order, and there is one such order.
use causalclock.Base.{
  Str, str_eq, str_eq_iff, str_eq_refl, str_ltb, str_ltb_irrefl, str_ltb_trans, str_ltb_total, true,
  false, none, List, [], ◌∷◌, All, keys, lookup, Distinct, Bool-cases, inl, inr, ◌||◌, ◌≡◌, refl,
  ap₂, arith,
}
use causalclock.Counters.Listing.{insert_sorted, sort}
use causalclock.Counters.Members.{has}

-- Strictly rising.
abbrev pub IsSorted : List Str → Type 0
IsSorted [] = Unit
IsSorted (x ∷ xs) = All (λ y. str_ltb x y ≡ true) xs × IsSorted xs

abbrev pub IsNodup : List Str → Type 0
IsNodup [] = Unit
IsNodup (x ∷ xs) = (has x xs ≡ false) × IsNodup xs

has_of_lookup-none :
    {V : Type 0} (k : Str) (m : List (Str × V)) → lookup k m ≡ none → has k (keys m) ≡ false
unfolding lookup
has_of_lookup-none k [] h = refl
has_of_lookup-none k ((j, v) ∷ m) h = ground (arith, has_of_lookup-none k m)

pub keys-IsNodup : {V : Type 0} (m : List (Str × V)) → Distinct m → IsNodup (keys m)
keys-IsNodup [] d = tt
keys-IsNodup ((k, v) ∷ m) d = (has_of_lookup-none k m d.0, keys-IsNodup m d.1)

has-insert_sorted :
    (k j : Str) (js : List Str) → has k (insert_sorted j js) ≡ (str_eq j k || has k js)
unfolding insert_sorted
has-insert_sorted k j [] = refl
has-insert_sorted k j (i ∷ js) = ground (arith, has-insert_sorted k j js)

-- Sorting keeps the strings.
pub has-sort : (k : Str) (ks : List Str) → has k (sort ks) ≡ has k ks
unfolding sort
has-sort k [] = refl
has-sort k (j ∷ ks) = ground (arith, has-insert_sorted k j (sort ks), has-sort k ks)

above-insert_sorted :
    (x k : Str) (js : List Str)
    → str_ltb x k ≡ true
    → All (λ y. str_ltb x y ≡ true) js
    → All (λ y. str_ltb x y ≡ true) (insert_sorted k js)
unfolding insert_sorted
above-insert_sorted x k [] h a = (h, tt)
above-insert_sorted x k (j ∷ js) h a = elim (Bool-cases (str_ltb k j)) [
  | inl e ↦ rw e (h, a)
  | inr e ↦ rw e (a.0, above-insert_sorted x k js h a.1)
]

above_trans :
    (x y : Str) (js : List Str)
    → str_ltb x y ≡ true
    → All (λ z. str_ltb y z ≡ true) js
    → All (λ z. str_ltb x z ≡ true) js
above_trans x y [] h a = tt
above_trans x y (j ∷ js) h a = (str_ltb_trans x y j h a.0, above_trans x y js h a.1)

insert_sorted-IsSorted :
    (k : Str) (js : List Str) → has k js ≡ false → IsSorted js → IsSorted (insert_sorted k js)
unfolding insert_sorted
insert_sorted-IsSorted k [] h s = (tt, tt)
insert_sorted-IsSorted k (j ∷ js) h s = elim (Bool-cases (str_ltb k j)) [
  | inl e ↦ rw e ((e, above_trans k j js e s.0), s)
  | inr e ↦
      let less : str_ltb j k ≡ true =
        str_ltb_total k j (ground (arith, str_eq_iff k j, str_eq_iff j k)) e in
      rw e (above-insert_sorted j k js less s.0, insert_sorted-IsSorted k js (ground arith) s.1)
]

pub sort-IsSorted : (ks : List Str) → IsNodup ks → IsSorted (sort ks)
unfolding sort
sort-IsSorted [] d = tt
sort-IsSorted (k ∷ ks) d =
    insert_sorted-IsSorted k (sort ks) (rw (has-sort k ks) d.0) (sort-IsSorted ks d.1)

above_has :
    (x k : Str) (xs : List Str)
    → All (λ y. str_ltb x y ≡ true) xs
    → has k xs ≡ true
    → str_ltb x k ≡ true
above_has x k [] a h = ground arith
above_has x k (y ∷ ys) a h = ground (arith, str_eq_iff y k, above_has x k ys a.1)

above_not : (x : Str) (xs : List Str) → All (λ y. str_ltb x y ≡ true) xs → has x xs ≡ false
above_not x xs a = ground (arith, above_has x x xs a, str_ltb_irrefl x)

heads_eq :
    (x y : Str) (xs ys : List Str)
    → IsSorted (x ∷ xs)
    → IsSorted (y ∷ ys)
    → ((k : Str) → has k (x ∷ xs) ≡ has k (y ∷ ys))
    → x ≡ y
heads_eq x y xs ys sx sy h = ground (
  arith,
  h x,
  h y,
  str_eq_iff x y,
  str_eq_iff y x,
  str_eq_refl x,
  str_eq_refl y,
  above_has x y xs sx.0,
  above_has y x ys sy.0,
  str_ltb_trans x y x,
  str_ltb_irrefl x,
)

-- Two strictly rising lists with the same strings are one list.
pub IsSorted-unique :
    (xs ys : List Str) → IsSorted xs → IsSorted ys → ((k : Str) → has k xs ≡ has k ys) → xs ≡ ys
IsSorted-unique [] [] sx sy h = refl
IsSorted-unique [] (y ∷ ys) sx sy h = ground (arith, h y, str_eq_refl y)
IsSorted-unique (x ∷ xs) [] sx sy h = ground (arith, h x, str_eq_refl x)
IsSorted-unique (x ∷ xs) (y ∷ ys) sx sy h =
    let e = heads_eq x y xs ys sx sy h in
    ap₂ ◌∷◌ e (
      IsSorted-unique xs ys sx.1 sy.1 (λ k.
        ground (
          arith,
          h k,
          e,
          str_eq_iff x k,
          str_eq_iff y k,
          above_not x xs sx.0,
          above_not y ys sy.0,
        )))
