-- ===== src/Stream/Decoder.antt =====
-- `Decoder` and `GenericDecoder` of src/sync.rs. The decoder of agents has no `decode_config` of
-- its own: it is the default one.
use delta_stream.Common.{ℕ, Bool, false, not, Option, none, some, ◌==◌, ltb, if◌then◌else◌}
use delta_stream.Error.{invalid_state, schema_mismatch, Result, ok, err, ok_or, ◌>>=◌}
use delta_stream.Libraries.{Libraries}
use delta_stream.Packet.{Packet, PacketKind, DecodeConfig, logical_payload_with_config}
use delta_stream.Recovery.Window.{ReplayWindow, new_window, contains, clear, record_sequence}
use delta_stream.Stream.{StateCodec, state_hash}

-- `ApplyResult` and `GenericApplyResult`.
pub data ApplyResult (T : Type 0) : Type 0 where
  applied : ℕ → T → ApplyResult T
  need_snapshot : Option ℕ → ℕ → ApplyResult T
  duplicate : ℕ → ApplyResult T

pub record Decoder (T : Type 0) : Type 0 where
  pub sequence : Option ℕ
  pub state : Option T
  pub replay : ReplayWindow
  pub decode_config : DecodeConfig

-- `ReplayWindow::default()` has room for 256.
unfoldable pub new_decoder : {T : Type 0} → DecodeConfig → Decoder T
unfolding new_window
new_decoder config = record {
  sequence = none;
  state = none;
  replay = new_window 256;
  decode_config = config;
}

unfoldable pub reset : {T : Type 0} → Decoder T → Decoder T
unfolding clear
reset self = record self { sequence = none; state = none; replay = clear self.replay }

-- `self.sequence.is_some_and(|local| packet.sequence < local)`
unfoldable pub is_behind : Option ℕ → ℕ → Bool
is_behind none sequence_ = false
is_behind (some local) sequence_ = ltb sequence_ local

-- `self.sequence == Some(packet.base_sequence)`
unfoldable pub is_at : Option ℕ → ℕ → Bool
is_at none base = false
is_at (some local) base = local == base

-- The state that a packet leads to, or the answer that asks for a snapshot.
pub data Next (T : Type 0) : Type 0 where
  next : T → Next T
  recover : Next T

-- The commit with `replay.record`, or the early return.
unfoldable pub commit :
    {T : Type 0} → Decoder T → Packet → Result (Next T) → Decoder T × Result (ApplyResult T)
unfolding record_sequence
commit self packet (err e) = (self, err e)
commit self packet (ok recover) = (self, ok (need_snapshot self.sequence packet.base_sequence))
commit self packet (ok (next state_)) = (
  record self {
    sequence = some packet.sequence;
    state = some state_;
    replay = record_sequence self.replay packet.sequence;
  },
  ok (applied packet.sequence state_),
)

module _ {T : Type 0} (codec : StateCodec T) (lib : Libraries) where
  -- The branch of a delta, on the state that it needs.
  unfoldable pub next_by_delta : Decoder T → Packet → Result (Next T)
  unfolding state_hash is_at
  next_by_delta self packet =
      if not (is_at self.sequence packet.base_sequence)
      then ok recover
      else (ok_or self.state (invalid_state "decoder has no base state") >>= λ current.
          state_hash codec current >>= λ hash.
          if not (hash == packet.base_hash)
          then ok recover
          else (logical_payload_with_config lib packet self.decode_config >>= λ payload_.
              codec.apply_delta payload_ current >>= λ state_. ok (next state_)))

  -- The match on the kind.
  unfoldable pub next_state : Decoder T → Packet → PacketKind → Result (Next T)
  unfolding next_by_delta
  next_state self packet PacketKind.snapshot = do
    payload_ ← logical_payload_with_config lib packet self.decode_config
    state_ ← codec.open_snapshot payload_ packet.base_hash
    ok (next state_)
  next_state self packet PacketKind.delta = next_by_delta self packet

  unfoldable pub apply_packet : Decoder T → Packet → Decoder T × Result (ApplyResult T)
  unfolding commit next_state contains is_behind
  apply_packet self packet =
      if not (packet.schema_hash == codec.schema_hash)
      then (self, err (schema_mismatch codec.schema_hash packet.schema_hash))
      else if contains self.replay packet.sequence
      then (self, ok (duplicate packet.sequence))
      else if is_behind self.sequence packet.sequence
      then (self, ok (duplicate packet.sequence))
      else commit self packet (next_state self packet packet.kind)
