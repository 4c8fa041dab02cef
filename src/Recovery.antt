-- ===== src/Recovery.antt =====
-- src/recovery_history.rs, src/replay.rs and src/partial_repair.rs: what a publisher keeps, and
-- what it sends to a receiver that has fallen behind.
pub mod History
pub mod Window
