-- ===== src/Transport/Mock.antt =====
-- `transport/mock.go`: the connection with its hooks and switches, the transport and its
-- listeners.
pub mod Conn
pub mod Net
pub mod Calls
pub mod Buffer
pub mod Peek
pub mod Closing
