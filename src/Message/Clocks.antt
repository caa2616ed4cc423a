-- ===== src/Message/Clocks.antt =====
-- A clock as the map of the serialized form, and back: the loops that `message/cbor.go` and
-- `message/json_helpers.go` share.
use causalclock.Base.{ℕ, zero, suc, ℤ, pos, negsuc, Str, Option, none, some, List, [], ◌∷◌, insert}
use causalclock.Clock.Types.{Clock, NodeId}
use causalclock.Counter.{int64}
use causalclock.Counters.Defs.{new, increment, get, merge}
use causalclock.Counters.Listing.{nodes}
use causalclock.Message.Types.{Result, ok, err, err_invalid_clock_value}

-- `clockData[string(node)] = msg.Clock.Get(node)` over the nodes.
unfoldable pub clock_data_loop : Clock → List (Str × ℤ) → List NodeId → List (Str × ℤ)
clock_data_loop c out [] = out
clock_data_loop c out (node ∷ ns) = clock_data_loop c (insert node (get int64 (some c) node) out) ns

-- The map of a clock; a nil clock gives an empty one.
unfoldable pub clock_data : Option Clock → List (Str × ℤ)
unfolding clock_data_loop
clock_data none = []
clock_data (some c) = clock_data_loop c [] (nodes (some c))

-- `for i := int64(0); i < value; i++ { tempClock.Increment(node) }`
unfoldable pub increments : ℕ → Clock → NodeId → Clock
increments zero c node = c
increments (suc n) c node = increments n (increment int64 c node).0 node

-- The loop over the map: a negative value is refused, any other is counted up in a temporary
-- clock that is merged.
unfoldable pub rebuild_loop : Clock → List (Str × ℤ) → Result Clock
unfolding increments
rebuild_loop clk [] = ok clk
rebuild_loop clk ((node, negsuc n) ∷ r) = err (err_invalid_clock_value node)
rebuild_loop clk ((node, pos n) ∷ r) =
    rebuild_loop (merge int64 clk (some (increments n (new int64 []) node))) r

unfoldable pub rebuild : List (Str × ℤ) → Result Clock
unfolding rebuild_loop
rebuild m = rebuild_loop (new int64 []) m
