-- ===== src/Counters/Built.antt =====
-- The values that clients can build with the package's operations, and the invariant of them all.
use causalclock.Base.{Str, none, some, List, ◌≡◌, ◌≢◌, true, false}
use causalclock.Counter.{Counter}
use causalclock.Counters.Defs.{Counters, new, copy, increment, get, set, merge}
use causalclock.Counters.Spec.{IsValid}
use causalclock.Counters.Changes.{
  new-IsValid, copy-IsValid, set-IsValid, increment-IsValid, merge-IsValid, none-IsValid,
}

module _ {V : Type 0} (num : Counter V) where
  open num use {origin, less}

  -- A value that calls lead to: values that are stored are not negative, and no counter is
  -- incremented past the largest value.
  pub data Built : Counters V → Type 0 where
    by_new : (nodes : List Str) → Built (new num nodes)
    by_increment :
        {c : Counters V} (node : Str)
        → Built c
        → num.in_range (get num (some c) node) ≡ true
        → get num (some c) node ≢ num.top
        → Built (increment num c node).0
    by_set :
        {c : Counters V} (node : Str) (v : V)
        → Built c
        → less v origin ≡ false
        → Built (set num c node v)
    by_merge : {c d : Counters V} → Built c → Built d → Built (merge num c (some d))
    by_merge_nil : {c : Counters V} → Built c → Built (merge num c none)
    by_copy : {c : Counters V} → Built c → Built (copy num (some c))
    by_copy_nil : Built (copy num none)

  -- Every value that the operations build has distinct keys and no negative counter.
  pub Built-IsValid : (c : Counters V) → Built c → IsValid num (some c)
  Built-IsValid c (by_new nodes) = new-IsValid num nodes
  Built-IsValid c (by_increment {c = d} node b r t) =
      increment-IsValid num d node (Built-IsValid d b) r t
  Built-IsValid c (by_set {c = d} node v b h) = set-IsValid num d node v (Built-IsValid d b) h
  Built-IsValid c (by_merge {c = d} {d = e} b b') =
      merge-IsValid num d (some e) (Built-IsValid d b) (Built-IsValid e b')
  Built-IsValid c (by_merge_nil {c = d} b) =
      merge-IsValid num d none (Built-IsValid d b) (none-IsValid num)
  Built-IsValid c (by_copy {c = d} b) = copy-IsValid num (some d) (Built-IsValid d b)
  Built-IsValid c by_copy_nil = copy-IsValid num none (none-IsValid num)
