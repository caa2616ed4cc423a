-- ===== src/Counters/Spec.antt =====
-- What `Compare` promises, stated on the values that `Get` returns.
use causalclock.Base.{Str, true, false, Option, ◌≡◌, Distinct}
use causalclock.Counter.{Counter}
use causalclock.Counters.Comparison.{Comparison, concurrent_cmp, before_cmp, after_cmp, equal_cmp}
use causalclock.Counters.Defs.{Counters, entries_of, get}

module _ {V : Type 0} (num : Counter V) where
  open num use {origin, less}

  -- A map with distinct keys in which no counter reads negative. The second part holds of every
  -- version vector, and of a clock on which `Set` never stored a negative value.
  pub record IsValid (c : Option (Counters V)) : Type 0 where
    pub distinct : Distinct (entries_of c)
    pub nonneg : (k : Str) → less (get num c k) origin ≡ false

  -- `c <= d` for all nodes.
  abbrev pub Below : Option (Counters V) → Option (Counters V) → Type 0
  Below c d = (k : Str) → less (get num d k) (get num c k) ≡ false

  -- `c > d` for at least one node.
  abbrev pub Exceeds : Option (Counters V) → Option (Counters V) → Type 0
  Exceeds c d = (k : Str) × (less (get num d k) (get num c k) ≡ true)

  -- The relation that each answer of `Compare` names.
  abbrev pub Related : Option (Counters V) → Option (Counters V) → Comparison → Type 0
  Related c d concurrent_cmp = Exceeds c d × Exceeds d c
  Related c d before_cmp = Below c d × Exceeds d c
  Related c d after_cmp = Below d c × Exceeds c d
  Related c d equal_cmp = (k : Str) → get num c k ≡ get num d k
