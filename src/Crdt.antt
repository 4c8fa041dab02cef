-- ===== src/Crdt.antt =====
-- src/crdt: the state-based counters and the last-write-wins register.
pub mod ReplicaId
pub mod Components
pub mod Extensional
pub mod GCounter
pub mod PnCounter
pub mod LwwRegister
