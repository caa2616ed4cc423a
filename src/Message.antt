-- ===== src/Message.antt =====
-- The package `message`: the message and its validation, the serializers, and their registry.
pub mod Types
pub mod Validate
pub mod Clocks
pub mod Serializer
pub mod Registry
pub mod Registered
pub mod Sender
pub mod Rebuild
pub mod Carried
pub mod Json
pub mod Cbor
pub mod RoundTrip
pub mod Zeros
