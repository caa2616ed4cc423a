-- ===== src/Clock/Types.antt =====
-- The types of `clock/clock.go`, which `types.go` exports again.
use causalclock.Base.{ℤ, Str}
use causalclock.Counters.Defs.{Counters}

-- `NodeID`
abbrev pub NodeId : Type 0
NodeId = Str

-- `Clock`
abbrev pub Clock : Type 0
Clock = Counters ℤ
