-- ===== src/Transport/Memory.antt =====
-- `transport/memory.go`: connections in pairs over two shared queues, and the transport that
-- makes them.
pub mod Link
pub mod Net
pub mod Fifo
pub mod Closing
pub mod Listeners
pub mod Wakeup
pub mod Session
