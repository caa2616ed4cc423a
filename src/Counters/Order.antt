-- ===== src/Counters/Order.antt =====
-- `Compare` decides the order of the counters.
mod Loop
pub mod Sound
pub mod Laws
