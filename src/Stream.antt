-- ===== src/Stream.antt =====
-- src/sync.rs: the synchronisation of typed states. `Encoder` and `GenericEncoder`, `Decoder` and
-- `GenericDecoder` differ in how a state becomes bytes; they share these definitions, which take
-- that as a codec.
pub mod Encoder
pub mod Decoder
pub mod Invariant
pub mod Law
pub mod Commit
pub mod InStep
pub mod Agent
pub mod Reorder
pub mod Generic
pub mod Migrate
use delta_stream.Common.{ℕ, List}
use delta_stream.Error.{Result, ok, ◌>>=◌}
use delta_stream.Hash.{fnv1a64}

pub record StateCodec (T : Type 0) : Type 0 where
  pub schema_hash : ℕ
  -- The payload of a snapshot, and of a delta between two states.
  pub snapshot_bytes : T → Result (List ℕ)
  pub delta_bytes : T → T → Result (List ℕ)
  -- The state in a snapshot's payload, which must have the packet's hash.
  pub open_snapshot : List ℕ → ℕ → Result T
  -- The state that a delta's payload leads to.
  pub apply_delta : List ℕ → T → Result T

-- `state_hash`, of the bytes of the state's snapshot.
unfoldable pub state_hash : {T : Type 0} → StateCodec T → T → Result ℕ
state_hash codec state = do bytes ← codec.snapshot_bytes state; ok (fnv1a64 bytes)
