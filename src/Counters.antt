-- ===== src/Counters.antt =====
-- The maps of counters that `clock/clock.go` and `version/vector.go` share, operation by
-- operation, over any counter type. `Defs` holds the state and its changes, `Compare` the
-- comparison, `Listing` the views; the other children prove.
pub mod Comparison
pub mod Defs
pub mod Compare
pub mod Spec
pub mod Members
pub mod Reads
pub mod Changes
pub mod Order
pub mod Abstract
pub mod Lattice
pub mod Events
pub mod Keys
pub mod Listing
pub mod Determinism
pub mod Emptiness
pub mod Built
