-- ===== src/ByteSync.antt =====
-- src/byte_sync.rs: the byte-state encoder, which sends the smallest of a snapshot, the smart
-- deltas and their compressed forms, and the byte-state decoder.
pub mod Encoder
pub mod Decoder
pub mod Search
pub mod Sync
pub mod Safety
pub mod Total
