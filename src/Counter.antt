-- ===== src/Counter.antt =====
-- The machine integers that count events: what `clock/clock.go` uses of int64 and
-- `version/vector.go` of uint64, as operations with the laws of their order. The children give
-- the two instances.
mod Int64
mod Uint64
mod Laws
unfoldable pub use Laws.*
unfoldable pub use Int64.{max_int64, inc_int64, int64}
unfoldable pub use Uint64.{is_uint64, max_uint64, inc_uint64, uint64}
pub use causalclock.Base.{is_int64}
