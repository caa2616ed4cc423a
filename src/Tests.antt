-- ===== src/Tests.antt =====
-- Runs of the model on concrete inputs, and the theorems at such inputs.
mod Data
mod Clocks
mod Messages
mod Crowds
mod Json
mod Transports
mod Sockets
mod Parsing
mod Mocks
pub mod Causal
