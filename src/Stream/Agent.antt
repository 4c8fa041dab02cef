-- ===== src/Stream/Agent.antt =====
-- `Encoder` and `Decoder` of src/sync.rs: the streams of agent states.
use delta_stream.Common.{
  ℕ, ◌≤◌, ◌≡◌, refl, sym, subst, ◌∙◌, Bool, List, [], ◌∷◌, length, isize_max, ==-eq-true, ◌==◌, not,
}
use delta_stream.Error.{invalid_state, Result, ok, ok_injective, fail_if, ◌>>=◌, ◌>>◌}
use delta_stream.Hash.{fnv1a64}
use delta_stream.State.{AgentState}
use delta_stream.Binary.StateCodec.{encode_agent_state, decode_agent_state}
use delta_stream.Binary.StateCodec.RoundTrip.{
  IsState, state_bytes, encode_agent_state_lem, decode-encode_agent_state,
}
use delta_stream.Binary.AgentDelta as Delta
use delta_stream.Binary.AgentDelta.{between}
use delta_stream.Binary.AgentDelta.Apply.{IsExact}
use delta_stream.Binary.DeltaCodec.{encode_agent_delta, decode_agent_delta}
use delta_stream.Binary.DeltaCodec.RoundTrip.{
  delta_bytes, encode_agent_delta_lem, between-IsDelta, apply-decode_agent_delta,
}
use delta_stream.Libraries.{Libraries}
use delta_stream.Packet.{Packet}
use delta_stream.Stream.{StateCodec}
use delta_stream.Stream.Encoder.{Encoder, encode, force_snapshot, recovery_snapshot}
use delta_stream.Stream.Decoder.{Decoder, ApplyResult, apply_packet}
use delta_stream.Stream.Law.{IsCodec}

-- "delta-stream/AgentState/v2"
abbrev pub agent_schema_name : List ℕ
agent_schema_name =
    b'd' ∷ b'e' ∷ b'l' ∷ b't' ∷ b'a' ∷ b'-' ∷ b's' ∷ b't' ∷ b'r' ∷ b'e' ∷ b'a' ∷ b'm' ∷ b'/' ∷ b'A'
    ∷ b'g' ∷ b'e' ∷ b'n' ∷ b't' ∷ b'S' ∷ b't' ∷ b'a' ∷ b't' ∷ b'e' ∷ b'/' ∷ b'v' ∷ b'2' ∷ []

unfoldable pub agent_schema_hash : ℕ
agent_schema_hash = fnv1a64 agent_schema_name

-- `state_hash`
unfoldable pub agent_state_hash : AgentState → Result ℕ
agent_state_hash state = do bytes ← encode_agent_state state; ok (fnv1a64 bytes)

-- What the branches of `apply_packet` do with a payload.
unfoldable pub open_agent_snapshot : List ℕ → ℕ → Result AgentState
unfolding agent_state_hash
open_agent_snapshot payload_ base_hash_ = do
  state ← decode_agent_state payload_
  hash ← agent_state_hash state
  fail_if (not (hash == base_hash_)) (invalid_state "snapshot hash mismatch")
  ok state

unfoldable pub apply_agent_delta : List ℕ → AgentState → Result AgentState
apply_agent_delta payload_ current = do
  delta ← decode_agent_delta payload_
  Delta.apply delta current

unfoldable pub agent_codec : StateCodec AgentState
unfolding open_agent_snapshot apply_agent_delta
agent_codec = record {
  schema_hash = agent_schema_hash;
  snapshot_bytes = encode_agent_state;
  delta_bytes = λ old new. encode_agent_delta (between old new);
  open_snapshot = open_agent_snapshot;
  apply_delta = apply_agent_delta;
}

-- The methods of `Encoder` and `Decoder` on agent states.
module _ (lib : Libraries) (ratio_at_most : ℕ → ℕ → ℕ → Bool) where
  unfoldable pub agent_encode : Encoder AgentState → AgentState → Encoder AgentState × Result Packet
  agent_encode self state = encode agent_codec lib ratio_at_most self state

  unfoldable pub agent_force_snapshot :
      Encoder AgentState → AgentState → Encoder AgentState × Result Packet
  agent_force_snapshot self state = force_snapshot agent_codec lib ratio_at_most self state

  unfoldable pub agent_recovery_snapshot : Encoder AgentState → AgentState → Result Packet
  agent_recovery_snapshot self state = recovery_snapshot agent_codec lib ratio_at_most self state

unfoldable pub agent_apply_packet :
    Libraries → Decoder AgentState → Packet → Decoder AgentState × Result (ApplyResult AgentState)
agent_apply_packet lib self packet = apply_packet agent_codec lib self packet

-- Two states that the float comparison tells apart where they differ.
abbrev pub AreExact : AgentState → AgentState → Type 0
AreExact old new = IsExact old.cpu_percent new.cpu_percent

open_agent_snapshot_lem :
    (s : AgentState) (bytes : List ℕ)
    → IsState s
    → encode_agent_state s ≡ ok bytes
    → length bytes ≤ isize_max
    → open_agent_snapshot bytes (fnv1a64 bytes) ≡ ok s
unfolding open_agent_snapshot agent_state_hash
open_agent_snapshot_lem s bytes h e small =
    rw
      (
        decode-encode_agent_state s bytes h small e,
        e,
        ==-eq-true (fnv1a64 bytes) (fnv1a64 bytes) refl,
      )
      refl

-- The compact encoding of agent states is a codec as the streams assume it: a well-formed state is
-- encoded, and its bytes with their hash open to the same state; the difference of two well-formed
-- states is encoded, and its bytes lead from the old state to the new one, provided that their
-- `cpu_percent` are not a zero and the negative zero. Byte strings fit a slice.
pub agent_codec-IsCodec : IsCodec agent_codec IsState AreExact
unfolding agent_codec
agent_codec-IsCodec = record {
  encodes = λ s h. (state_bytes s, encode_agent_state_lem s h);
  opens = λ s bytes h e small. open_agent_snapshot_lem s bytes h e small;
  differs = λ old new h k. (
    delta_bytes (between old new),
    encode_agent_delta_lem (between old new) (between-IsDelta old new h k),
  );
  applies = λ old new bytes h k exact e small.
      let eq : delta_bytes (between old new) ≡ bytes =
        ok_injective _ _
          (sym (encode_agent_delta_lem (between old new) (between-IsDelta old new h k)) ∙ e) in
      let back =
        apply-decode_agent_delta old new h k exact
          (subst (λ b. length b ≤ isize_max) (sym eq) small) in
      subst (λ b. apply_agent_delta b old ≡ ok new) eq back.1;
}
