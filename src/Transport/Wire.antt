-- ===== src/Transport/Wire.antt =====
-- What the wire format keeps and what it refuses.
mod Readers
pub mod RoundTrip
pub mod Panics
pub mod Truncation
