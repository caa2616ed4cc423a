-- ===== src/Counters/Listing.antt =====
-- The views of a map of counters: `Nodes` and `Replicas`, `Len`, `IsEmpty`, `String`.
use causalclock.Base.{
  ℕ, Str, str_ltb, Bool, true, Option, List, [], ◌∷◌, ◌++◌, keys, length, value_at, ◌&&◌,
  if◌then◌else◌,
}
use causalclock.Counter.{Counter}
use causalclock.Counters.Defs.{Counters, entries_of}
use causalclock.Counters.Compare.{is_nil}

-- `sort.Slice` by `<`, as an insertion sort: the keys of a map are distinct, so there is one
-- sorted order.
unfoldable pub insert_sorted : Str → List Str → List Str
insert_sorted k [] = k ∷ []
insert_sorted k (j ∷ js) = if str_ltb k j then k ∷ j ∷ js else j ∷ insert_sorted k js

unfoldable pub sort : List Str → List Str
unfolding insert_sorted
sort [] = []
sort (k ∷ ks) = insert_sorted k (sort ks)

module _ {V : Type 0} where
  -- `Nodes`, `Replicas`
  unfoldable pub nodes : Option (Counters V) → List Str
  unfolding sort
  nodes c = sort (keys (entries_of c))

  -- `Len`
  unfoldable pub len : Option (Counters V) → ℕ
  len c = length (entries_of c)

module _ {V : Type 0} (num : Counter V) where
  open num use {origin, is_zero, format}

  -- `for _, v := range c.clock { if v != 0 { return false } }; return true`
  unfoldable pub all_zero : List (Str × V) → Bool
  all_zero [] = true
  all_zero ((k, v) ∷ m) = is_zero v && all_zero m

  -- `IsEmpty`
  unfoldable pub is_empty : Option (Counters V) → Bool
  unfolding all_zero
  is_empty c = all_zero (entries_of c)

  -- `%s:%d`
  abbrev pub pair_string : List (Str × V) → Str → Str
  pair_string m k = k ++ (b':' ∷ format (value_at origin k m))

  -- The loop of `String` behind the first node.
  unfoldable pub string_loop : List (Str × V) → List Str → Str
  string_loop m [] = []
  string_loop m (k ∷ ks) = b',' ∷ b' ' ∷ (pair_string m k ++ string_loop m ks)

  -- The loop of `String`: no separator stands in front of the first node.
  unfoldable pub string_nodes : List (Str × V) → List Str → Str
  unfolding string_loop
  string_nodes m [] = []
  string_nodes m (k ∷ ks) = pair_string m k ++ string_loop m ks

  -- `String`
  unfoldable pub string : Option (Counters V) → Str
  unfolding string_nodes nodes
  string c =
      if is_nil (entries_of c)
      then b'{' ∷ b'}' ∷ []
      else b'{' ∷ (string_nodes (entries_of c) (nodes c) ++ (b'}' ∷ []))
