-- ===== src/Clock.antt =====
-- `clock/clock.go`: a `Clock` is a map of int64 counters, `Counters` over `int64`. The methods
-- are those of `Counters` at that type; `Parse` is `ParseClock`.
pub mod Types
pub mod Negative
pub mod Parse
