-- ===== src/Version.antt =====
-- `version/vector.go`: a `VersionVector` is a map of uint64 counters. Its methods are the text
-- of those of `Clock` over the other counter type, and are defined as such.
pub mod Vector
pub mod Laws
