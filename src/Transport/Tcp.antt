-- ===== src/Transport/Tcp.antt =====
-- The sockets of `transport/tcp.go`: the connection, its framing, and the transport's bookkeeping.
pub mod Conn
pub mod Framing
pub mod Receipt
pub mod Net
pub mod Redial
mod Kept
pub mod Overlap
