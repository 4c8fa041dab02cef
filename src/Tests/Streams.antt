-- ===== src/Tests/Streams.antt =====
-- Agent states, their deltas, and the streams of them.
use delta_stream.Common.{
  ℕ, ◌≤◌, ◌≡◌, refl, true, inr, [], ◌∷◌, Bool, none, some, length, leb, ◌*◌, arith, List, ◌+◌,
}
use delta_stream.Error.{ok, ◌>>=◌}
use delta_stream.Hash.{fnv1a64}
use delta_stream.Packet.{Packet, default_config, encoded_len, snapshot_packet, delta_packet}
use delta_stream.State.{AgentState, f32_eq}
use delta_stream.Binary.Utf8.{is_utf8}
use delta_stream.Common.Bytes.{minus, same_bytes}
use delta_stream.Binary.Words.{zigzag}
use delta_stream.Binary.Words.Laws.{wide_bytes}
use delta_stream.Varint.RoundTrip.{groups}
use delta_stream.Packet.Little.{to_le_bytes}
use delta_stream.Binary.StateCodec.{decode_agent_state}
use delta_stream.Binary.StateCodec.RoundTrip.{
  IsState, state_bytes, encode_agent_state_lem, decode-encode_agent_state,
}
use delta_stream.Binary.AgentDelta as Delta
use delta_stream.Binary.AgentDelta.{between}
use delta_stream.Binary.DeltaCodec.{encode_agent_delta, decode_agent_delta}
use delta_stream.Binary.DeltaCodec.RoundTrip.{delta_bytes, apply-decode_agent_delta}
use delta_stream.Adaptive.{AdaptivePolicy}
use delta_stream.Stream.Law.{Fits}
use delta_stream.Stream.Encoder.{Encoder, encode, recovery_snapshot}
use delta_stream.Stream.Decoder.{Decoder, applied, is_behind, new_decoder, apply_packet}
use delta_stream.Stream.Invariant.{
  IsDecoder, advanced, advanced-IsDecoder, Reach, start, receive, Reach-IsDecoder,
}
use delta_stream.Stream.InStep.{InStep, apply_packet-encode, apply_packet-recovery_snapshot}
use delta_stream.Stream.Agent.{agent_codec, agent_codec-IsCodec}
use delta_stream.Session.{SubscriberSession, new_session, run}
use delta_stream.Session.Requests.{requests, acks, open_request, run-requests}
use delta_stream.Tests.{toy, toy-IsLawful, toy-Compresses}

abbrev before : AgentState
before = record {
  agent_id = b'a' ∷ b'1' ∷ [];
  model = b'm' ∷ [];
  status = b'o' ∷ b'k' ∷ [];
  task = 0xc3 ∷ 0xa9 ∷ [];
  progress = 40;
  tokens = 100000;
  memory_mb = 512;
  cpu_percent = 0x41200000;
  files_processed = 7;
  current_file = b'f' ∷ [];
}

abbrev after : AgentState
after = record before { progress = 39; tokens = 100128; current_file = [] }

before-IsState : IsState before
unfolding is_utf8
before-IsState = record {
  agent_id_ok = (refl, omega arith);
  model_ok = (refl, omega arith);
  status_ok = (refl, omega arith);
  task_ok = (refl, omega arith);
  progress_ok = omega arith;
  tokens_ok = omega arith;
  memory_mb_ok = omega arith;
  cpu_percent_ok = omega arith;
  files_processed_ok = omega arith;
  current_file_ok = (refl, omega arith);
}

after-IsState : IsState after
unfolding is_utf8
after-IsState = record {
  agent_id_ok = (refl, omega arith);
  model_ok = (refl, omega arith);
  status_ok = (refl, omega arith);
  task_ok = (refl, omega arith);
  memory_mb_ok = omega arith;
  cpu_percent_ok = omega arith;
  files_processed_ok = omega arith;
  progress_ok = omega arith;
  tokens_ok = omega arith;
  current_file_ok = (refl, omega arith);
}

length-after : length (state_bytes after) ≡ 23
unfolding state_bytes wide_bytes groups to_le_bytes
length-after = refl

length-before : length (state_bytes before) ≡ 24
unfolding state_bytes wide_bytes groups to_le_bytes
length-before = refl

length-delta : length (delta_bytes (between before after)) ≡ 6
unfolding delta_bytes wide_bytes groups to_le_bytes between zigzag minus same_bytes f32_eq
length-delta = refl

decode-encode_agent_state_example : decode_agent_state (state_bytes after) ≡ ok after
decode-encode_agent_state_example =
    decode-encode_agent_state after (state_bytes after) after-IsState (omega (arith, length-after))
      (encode_agent_state_lem after after-IsState)

apply-decode_agent_delta_example :
    (encode_agent_delta (between before after) ≡ ok (delta_bytes (between before after)))
    × ((decode_agent_delta (delta_bytes (between before after)) >>= λ d. Delta.apply d before)
        ≡ ok after)
apply-decode_agent_delta_example =
    apply-decode_agent_delta before after before-IsState after-IsState (λ e. refl)
      (omega (arith, length-delta))

abbrev policy_ : AdaptivePolicy
policy_ = record {
  min_delta_savings_bytes = 1;
  max_delta_ratio = 98;
  enable_zstd = true;
  zstd_level = 1;
  min_compression_savings_bytes = 8;
  compression_cpu_penalty_bytes = 0;
}

-- A ratio in percent.
percent : ℕ → ℕ → ℕ → Bool
percent delta_bytes_ snapshot_bytes_ ratio = leb (delta_bytes_ * 100) (ratio * snapshot_bytes_)

abbrev publisher : Encoder AgentState
publisher = record {
  sequence = 5;
  last_state = some before;
  policy = policy_;
  last_decision = none;
}

-- A subscriber that has taken one snapshot, and the one that has taken none.
abbrev silent : Decoder AgentState
silent = new_decoder default_config

abbrev behind : Decoder AgentState
behind =
    (apply_packet agent_codec toy silent (
      snapshot_packet 4 (fnv1a64 (state_bytes after)) agent_codec.schema_hash
        (state_bytes after))).0

behind-Reach : Reach agent_codec toy default_config behind
behind-Reach = receive _ start

Reach-IsDecoder_example : IsDecoder behind
Reach-IsDecoder_example = Reach-IsDecoder agent_codec toy default_config behind behind-Reach

abbrev subscriber : Decoder AgentState
subscriber = advanced silent 5 before

subscriber-InStep : InStep IsState publisher subscriber
unfolding new_decoder is_behind
subscriber-InStep = record {
  invariant =
      advanced-IsDecoder silent 5 before
        (Reach-IsDecoder agent_codec toy default_config silent start) refl;
  states = inr (before, before-IsState, refl, refl, refl);
}

after-Fits : Fits agent_codec subscriber.decode_config after
unfolding agent_codec new_decoder
after-Fits = record {
  bytes = state_bytes after;
  bytes_eq = encode_agent_state_lem after after-IsState;
  limit = omega (arith, length-after);
  short = omega (arith, length-after);
}

before-Fits : Fits agent_codec silent.decode_config before
unfolding agent_codec new_decoder
before-Fits = record {
  bytes = state_bytes before;
  bytes_eq = encode_agent_state_lem before before-IsState;
  limit = omega (arith, length-before);
  short = omega (arith, length-before);
}

apply_packet-encode_example :
    (e' : Encoder AgentState) × (p : Packet) × (encode agent_codec toy percent publisher after
      ≡ (e', ok p))
    × (apply_packet agent_codec toy subscriber p
        ≡ (advanced subscriber 6 after, ok (applied 6 after)))
    × InStep IsState e' (advanced subscriber 6 after)
    × (encoded_len p
        ≤ encoded_len
            (snapshot_packet 6 (fnv1a64 after-Fits.bytes) agent_codec.schema_hash after-Fits.bytes))
apply_packet-encode_example =
    apply_packet-encode agent_codec toy agent_codec-IsCodec toy-IsLawful percent toy-Compresses
      publisher subscriber after after-Fits subscriber-InStep (omega arith) after-IsState
      (λ e. refl)

-- A subscriber that has missed a packet.
abbrev late : Decoder AgentState
late = advanced silent 4 after

late-IsDecoder : IsDecoder late
unfolding new_decoder is_behind
late-IsDecoder =
    advanced-IsDecoder silent 4 after (Reach-IsDecoder agent_codec toy default_config silent start)
      refl

apply_packet-recovery_snapshot_example :
    (p : Packet) × (recovery_snapshot agent_codec toy percent publisher before ≡ ok p)
    × (apply_packet agent_codec toy late p ≡ (advanced late 5 before, ok (applied 5 before)))
    × InStep IsState publisher (advanced late 5 before)
apply_packet-recovery_snapshot_example =
    apply_packet-recovery_snapshot agent_codec toy agent_codec-IsCodec toy-IsLawful percent
      toy-Compresses publisher late before before-Fits late-IsDecoder (inr (4, refl, omega arith))
      refl before-IsState

-- Two deltas that the new subscriber cannot apply.
abbrev early : List Packet
early =
    delta_packet 6 5 9 agent_codec.schema_hash []
    ∷ delta_packet 7 6 9 agent_codec.schema_hash []
    ∷ []

abbrev session : SubscriberSession
session = new_session (b'c' ∷ []) (b'r' ∷ [])

run-requests_example :
    requests (run toy none early session).1 + open_request session.awaiting_snapshot
    ≤ acks (run toy none early session).1
      + open_request (run toy none early session).0.awaiting_snapshot
run-requests_example = run-requests toy none early session
