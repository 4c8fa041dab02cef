-- ===== src/ByteSync/Decoder.antt =====
-- `ByteStateDecoder` of src/byte_sync.rs.
use delta_stream.Common.{ℕ, Bool, false, not, List, Option, none, some, ◌==◌, leb, if◌then◌else◌}
use delta_stream.Error.{invalid_state, schema_mismatch, Result, ok, err, ok_or, ◌>>=◌}
use delta_stream.Hash.{fnv1a64}
use delta_stream.Libraries.{Libraries}
use delta_stream.Packet.{Packet, PacketKind, logical_payload}
use delta_stream.SmartDelta.Dispatch as Smart

pub data ByteApplyResult : Type 0 where
  applied : ℕ → List ℕ → ByteApplyResult
  need_recovery : Option ℕ → ℕ → ByteApplyResult
  duplicate : ℕ → ByteApplyResult

pub record ByteStateDecoder : Type 0 where
  pub sequence : Option ℕ
  pub state : Option (List ℕ)
  pub schema_hash : ℕ

unfoldable pub new_decoder : List ℕ → ByteStateDecoder
new_decoder schema_name = record {
  sequence = none;
  state = none;
  schema_hash = fnv1a64 schema_name;
}

-- `self.sequence.is_some_and(|seq| sequence <= seq)`
unfoldable pub is_stale : Option ℕ → ℕ → Bool
is_stale none sequence_ = false
is_stale (some local) sequence_ = leb sequence_ local

-- `local == Some(base)`
unfoldable pub is_at : Option ℕ → ℕ → Bool
is_at none base = false
is_at (some local) base = local == base

-- The state that a packet leads to, or the answer that asks for recovery.
pub data Next : Type 0 where
  next : List ℕ → Next
  recover : Next

-- The delta branch of the match on the kind.
unfoldable pub next_by_delta : ByteStateDecoder → Packet → List ℕ → Result Next
next_by_delta self packet payload_ =
    if not (is_at self.sequence packet.base_sequence)
    then ok recover
    else (ok_or self.state (invalid_state "byte decoder has no base state") >>= λ base.
        if not (fnv1a64 base == packet.base_hash)
        then ok recover
        else (Smart.apply base payload_ >>= λ bytes. ok (next bytes)))

unfoldable pub next_state : ByteStateDecoder → Packet → PacketKind → List ℕ → Result Next
unfolding next_by_delta
next_state self packet PacketKind.snapshot payload_ =
    if not (fnv1a64 payload_ == packet.base_hash)
    then err (invalid_state "byte snapshot hash mismatch")
    else ok (next payload_)
next_state self packet PacketKind.delta payload_ = next_by_delta self packet payload_

-- The commit, or the early return.
unfoldable pub commit :
    ByteStateDecoder → Packet → Result Next → ByteStateDecoder × Result ByteApplyResult
commit self packet (err e) = (self, err e)
commit self packet (ok recover) = (self, ok (need_recovery self.sequence packet.base_sequence))
commit self packet (ok (next bytes)) = (
  record self { sequence = some packet.sequence; state = some bytes },
  ok (applied packet.sequence bytes),
)

unfoldable pub apply :
    Libraries → ByteStateDecoder → Packet → ByteStateDecoder × Result ByteApplyResult
unfolding commit next_state is_stale
apply lib self packet =
    if not (packet.schema_hash == self.schema_hash)
    then (self, err (schema_mismatch self.schema_hash packet.schema_hash))
    else if is_stale self.sequence packet.sequence
    then (self, ok (duplicate packet.sequence))
    else commit self packet
        (logical_payload lib packet >>= λ payload_. next_state self packet packet.kind payload_)

unfoldable pub reset : ByteStateDecoder → ByteStateDecoder
reset self = record self { sequence = none; state = none }
