-- ===== src/Counters/Determinism.antt =====
-- A Go map has no order of its entries: the answers of every method depend on the entries alone,
-- not on the order in which `range` meets them.
pub mod Sorted
pub mod Views
