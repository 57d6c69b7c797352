-- ===== src/Protocol.antt =====
-- src/core/protocol: the messages, their factory and the serializer.
pub mod ErrorCode
pub mod Message
pub mod Factory
pub mod Serializer
pub mod RoundTrip
pub mod Equality
pub mod Bounds
pub mod Readable
pub mod Loads
