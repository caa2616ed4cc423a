-- ===== src/Transport.antt =====
-- The package `transport`: its messages and errors, the wire format of TCP, the TCP connection,
-- and the in-memory and mock transports.
pub mod Types
pub mod Codec
pub mod Wire
pub mod Memory
pub mod Tcp
pub mod Mock
