-- ===== src/Binary.antt =====
-- src/binary.rs: the compact encoding of an agent's state, and of the difference of two states.
pub mod Words
pub mod Utf8
pub mod Reader
pub mod StateCodec
pub mod AgentDelta
pub mod DeltaCodec
