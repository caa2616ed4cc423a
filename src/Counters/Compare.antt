-- ===== src/Counters/Compare.antt =====
-- `Compare` of `clock/clock.go` and `version/vector.go`, and the tests that wrap it.
use causalclock.Base.{
  Str, Bool, true, false, Option, List, [], ◌∷◌, insert, keys, value_at, ◌&&◌, ◌||◌, not,
  if◌then◌else◌,
}
use causalclock.Counter.{Counter}
use causalclock.Counters.Comparison.{
  Comparison, concurrent_cmp, before_cmp, after_cmp, equal_cmp, cmp_eq,
}
use causalclock.Counters.Defs.{Counters, entries_of}

-- `allNodes`: a map without values, to which the keys of both sides are added.
unfoldable pub mark : List (Str × Unit {0}) → List Str → List (Str × Unit {0})
mark s [] = s
mark s (k ∷ ks) = mark (insert k tt s) ks

module _ {V : Type 0} where
  abbrev pub is_nil : List (Str × V) → Bool
  is_nil [] = true
  is_nil (e ∷ m) = false

  unfoldable pub all_nodes : List (Str × V) → List (Str × V) → List Str
  unfolding mark
  all_nodes m n = keys (mark (mark [] (keys m)) (keys n))

module _ {V : Type 0} (num : Counter V) where
  open num use {origin, less}

  -- `for _, v := range m { if v > 0 … }`
  unfoldable pub has_positive : List (Str × V) → Bool
  has_positive [] = false
  has_positive ((k, v) ∷ m) = less origin v || has_positive m

  -- The loop over `allNodes`, with the two flags and the early exit; behind it, the last tests.
  unfoldable pub compare_loop :
      List (Str × V) → List (Str × V) → List Str → Bool → Bool → Comparison
  compare_loop m n [] has_greater has_less =
      if has_greater && not has_less
      then after_cmp
      else if has_less && not has_greater
      then before_cmp
      else equal_cmp
  compare_loop m n (k ∷ ks) has_greater has_less =
      let c_val = value_at origin k m in
      let other_val = value_at origin k n in
      let greater = if less other_val c_val then true else has_greater in
      let lesser =
        if less other_val c_val
        then has_less
        else if less c_val other_val
        then true
        else has_less in
      if greater && lesser then concurrent_cmp else compare_loop m n ks greater lesser

  -- The body of `Compare`, on the entries of the two sides.
  unfoldable pub compare_maps : List (Str × V) → List (Str × V) → Comparison
  unfolding has_positive all_nodes compare_loop
  compare_maps m n =
      let c_empty = is_nil m in
      let other_empty = is_nil n in
      if c_empty && other_empty
      then equal_cmp
      else if c_empty
      then if has_positive n then before_cmp else equal_cmp
      else if other_empty
      then if has_positive m then after_cmp else equal_cmp
      else compare_loop m n (all_nodes m n) false false

  -- `Compare`
  unfoldable pub compare : Option (Counters V) → Option (Counters V) → Comparison
  unfolding compare_maps
  compare c other = compare_maps (entries_of c) (entries_of other)

  -- `Equal`
  unfoldable pub equal : Option (Counters V) → Option (Counters V) → Bool
  unfolding compare
  equal c other = cmp_eq (compare c other) equal_cmp

  -- `HappenedBefore`
  unfoldable pub happened_before : Option (Counters V) → Option (Counters V) → Bool
  unfolding compare
  happened_before c other = cmp_eq (compare c other) before_cmp

  -- `HappenedAfter`
  unfoldable pub happened_after : Option (Counters V) → Option (Counters V) → Bool
  unfolding compare
  happened_after c other = cmp_eq (compare c other) after_cmp

  -- `Concurrent`
  unfoldable pub concurrent : Option (Counters V) → Option (Counters V) → Bool
  unfolding compare
  concurrent c other = cmp_eq (compare c other) concurrent_cmp

  -- `Descendant`, `Descends`
  unfoldable pub descendant : Option (Counters V) → Option (Counters V) → Bool
  unfolding compare
  descendant c other = cmp_eq (compare c other) after_cmp || cmp_eq (compare c other) equal_cmp

  -- `Ancestor`
  unfoldable pub ancestor : Option (Counters V) → Option (Counters V) → Bool
  unfolding compare
  ancestor c other = cmp_eq (compare c other) before_cmp || cmp_eq (compare c other) equal_cmp
