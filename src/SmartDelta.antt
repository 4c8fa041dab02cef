-- ===== src/SmartDelta.antt =====
-- src/smart_delta.rs: five byte-level delta formats between a previous and a current state, the
-- dispatch on their tags, and the tuner of the compression threshold. The formats stand in one
-- child each; `Dispatch` composes them.
pub mod Kind
pub mod Buffer
pub mod Tuner
pub mod Overlay
pub mod Sparse
pub mod Ranges
pub mod Xor
pub mod Splice
pub mod Chunks
pub mod Dispatch
