-- ===== src/Causality.antt =====
-- Nodes that keep a clock or a version vector as the documentation of `clock/clock.go` and
-- `version/vector.go` has them do: a node increments its own counter at every event, a message
-- carries a copy of the sender's map, and a receipt merges that copy before it increments.
pub mod Stamps
pub mod History
pub mod Order
pub mod Exact
use causalclock.Base.{
  ℕ, ◌<◌, Str, str_eq, Option, none, some, List, [], ◌∷◌, ◌++◌, ◌≡◌, if◌then◌else◌,
}
use causalclock.Base.Slices.{get_elem?}
use causalclock.Counter.{Counter}
use causalclock.Counters.Defs.{Counters, new, copy, increment, merge}
use causalclock.Counters.Events.{CanGrow}

-- An event: the node where it happens, the event that sent the message it receives, if it
-- receives one, and the copy of the node's map that it leaves.
pub record Event (V : Type 0) : Type 0 where
  pub node : Str
  pub cause : Option ℕ
  pub stamp : Counters V

-- The map of every node, and the events so far; an event goes by its place among them.
pub record World (V : Type 0) : Type 0 where
  pub clocks : Str → Counters V
  pub events : List (Event V)

-- What must have happened before what: events of one node in their order, the sending of a
-- message before its receipt, and what follows from these.
pub data HappensBefore {V : Type 0} (events : List (Event V)) : ℕ → ℕ → Type 0 where
  same_node :
      {i j : ℕ} {a b : Event V}
      → get_elem? events i ≡ some a
      → get_elem? events j ≡ some b
      → a.node ≡ b.node
      → i < j
      → HappensBefore events i j
  message :
      {i j : ℕ} {b : Event V}
      → get_elem? events j ≡ some b
      → b.cause ≡ some i
      → HappensBefore events i j
  chain :
      {i j k : ℕ} → HappensBefore events i j → HappensBefore events j k → HappensBefore events i k

module _ {V : Type 0} (num : Counter V) where
  abbrev pub initial : World V
  initial = record { clocks = λ p. new num []; events = [] }

  -- The node's map is now `c`, and the event keeps a copy of it.
  abbrev pub happen : World V → Str → Option ℕ → Counters V → World V
  happen w p from c = record {
    clocks = λ q. if str_eq p q then c else w.clocks q;
    events = w.events ++ (record { node = p; cause = from; stamp = copy num (some c) } ∷ []);
  }

  abbrev pub act : World V → Str → World V
  act w p = happen w p none (increment num (w.clocks p) p).0

  abbrev pub receive : World V → Str → ℕ → Counters V → World V
  receive w p from sent =
      happen w p (some from) (increment num (merge num (w.clocks p) (some sent)) p).0

  -- The worlds that events lead to, where no counter is at its largest value when it is
  -- incremented. Messages may be lost, doubled and overtaken.
  pub data Run : World V → Type 0 where
    started : Run initial
    acted : {w : World V} (p : Str) → Run w → CanGrow num (w.clocks p) p → Run (act w p)
    received :
        {w : World V} {a : Event V} (p : Str) (i : ℕ)
        → Run w
        → get_elem? w.events i ≡ some a
        → CanGrow num (merge num (w.clocks p) (some a.stamp)) p
        → Run (receive w p i a.stamp)
