-- ===== src/Counters/Defs.antt =====
-- `Clock` and `VersionVector`: the state, its constructors and the operations that change it.
-- A pointer that may be nil is an `Option`; the receiver of a change is never nil, since Go
-- panics on it.
use causalclock.Base.{Str, Option, none, some, List, [], ◌∷◌, insert, value_at, ◌&&◌, if◌then◌else◌}
use causalclock.Counter.{Counter}

-- The struct with its one map field. `none` is the nil map of the zero value.
pub record Counters (V : Type 0) : Type 0 where
  pub entries : Option (List (Str × V))

module _ {V : Type 0} where
  -- The entries that a read of the map meets: none where the map is nil.
  abbrev pub made : Counters V → List (Str × V)
  made c = elim c.entries [ none ↦ [] | some m ↦ m ]

  -- The same behind a pointer: none where the pointer is nil.
  abbrev pub entries_of : Option (Counters V) → List (Str × V)
  entries_of none = []
  entries_of (some c) = made c

  -- The loop of `Copy`: `copy.clock[k] = v`.
  unfoldable pub copy_loop : List (Str × V) → List (Str × V) → List (Str × V)
  copy_loop m [] = m
  copy_loop m ((k, v) ∷ r) = copy_loop (insert k v m) r

module _ {V : Type 0} (num : Counter V) where
  open num use {origin, inc, less, is_zero}

  -- The loop of the constructor: `c.clock[node] = 0`.
  unfoldable pub new_loop : List (Str × V) → List Str → List (Str × V)
  new_loop m [] = m
  new_loop m (k ∷ ks) = new_loop (insert k origin m) ks

  -- `NewClock`, `NewVersionVector`
  unfoldable pub new : List Str → Counters V
  unfolding new_loop
  new nodes = record { entries = some (new_loop [] nodes) }

  -- `Copy`
  unfoldable pub copy : Option (Counters V) → Counters V
  unfolding new copy_loop
  copy none = new []
  copy (some c) = record { entries = some (copy_loop [] (made c)) }

  -- `Increment`: the new state and the new value.
  unfoldable pub increment : Counters V → Str → Counters V × V
  increment c node =
      let m = insert node (inc (value_at origin node (made c))) (made c) in
      (record { entries = some m }, value_at origin node m)

  -- `Get`
  unfoldable pub get : Option (Counters V) → Str → V
  get c node = value_at origin node (entries_of c)

  -- `Set`
  unfoldable pub set : Counters V → Str → V → Counters V
  set c node value = record { entries = some (insert node value (made c)) }

  -- The body of the loop of `Merge`.
  unfoldable pub merge_entry : List (Str × V) → Str → V → List (Str × V)
  merge_entry m node other_val =
      let current_val = value_at origin node m in
      if less current_val other_val
      then insert node other_val m
      else if is_zero current_val && is_zero other_val
      then insert node origin m
      else m

  unfoldable pub merge_loop : List (Str × V) → List (Str × V) → List (Str × V)
  unfolding merge_entry
  merge_loop m [] = m
  merge_loop m ((k, v) ∷ r) = merge_loop (merge_entry m k v) r

  -- `Merge`, past the test for a nil pointer.
  abbrev merge_made : Counters V → Option (List (Str × V)) → Counters V
  unfolding merge_loop
  merge_made c none = c
  merge_made c (some o) = record { entries = some (merge_loop (made c) o) }

  -- `Merge`
  unfoldable pub merge : Counters V → Option (Counters V) → Counters V
  unfolding merge_loop
  merge c none = c
  merge c (some o) = merge_made c o.entries
