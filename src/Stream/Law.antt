-- ===== src/Stream/Law.antt =====
-- What a codec owes the streams: a valid state survives its snapshot, and the delta that leads to it.
use delta_stream.Common.{ℕ, ◌≤◌, ◌≡◌, List, Option, none, some, length, isize_max}
use delta_stream.Error.{ok}
use delta_stream.Hash.{fnv1a64}
use delta_stream.Packet.{DecodeConfig}
use delta_stream.Stream.{StateCodec}

-- `Valid` is what the types say of a state; `Exact` says of two states that the delta tells them
-- apart where they differ.
pub record IsCodec {T : Type 0} (codec : StateCodec T) (Valid : T → Type 0) (Exact : T → T → Type 0)
    : Type 0 where
  pub encodes : (s : T) → Valid s → (bytes : List ℕ) × (codec.snapshot_bytes s ≡ ok bytes)
  pub opens :
      (s : T) (bytes : List ℕ)
      → Valid s
      → codec.snapshot_bytes s ≡ ok bytes
      → length bytes ≤ isize_max
      → codec.open_snapshot bytes (fnv1a64 bytes) ≡ ok s
  pub differs :
      (old new : T)
      → Valid old
      → Valid new
      → (bytes : List ℕ) × (codec.delta_bytes old new ≡ ok bytes)
  pub applies :
      (old new : T) (bytes : List ℕ)
      → Valid old
      → Valid new
      → Exact old new
      → codec.delta_bytes old new ≡ ok bytes
      → length bytes ≤ isize_max
      → codec.apply_delta bytes old ≡ ok new

-- The same for a state that may be missing.
abbrev pub ExactFrom : {T : Type 0} → (T → T → Type 0) → Option T → T → Type 0
ExactFrom Exact none state = Unit
ExactFrom Exact (some previous) state = Exact previous state

-- A snapshot that a decoder with this configuration takes.
pub record Fits {T : Type 0} (codec : StateCodec T) (config : DecodeConfig) (state : T)
    : Type 0 where
  pub bytes : List ℕ
  pub bytes_eq : codec.snapshot_bytes state ≡ ok bytes
  pub limit : length bytes ≤ config.max_decompressed_bytes
  pub short : length bytes ≤ 0xffff_ffff
