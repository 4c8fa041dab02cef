-- ===== src/Tests/Sync.antt =====
-- An encoder and a decoder in step, and the packets that pass between them.
use delta_stream.Common.{
  ℕ, ◌≤◌, ◌≡◌, ◌⊎◌, refl, sym, subst, ◌∙◌, true, inr, List, [], ◌∷◌, none, some, length, slice?,
  All, arith,
}
use delta_stream.Error.{ok, ok_injective}
use delta_stream.Hash.{fnv1a64}
use delta_stream.Packet.{Packet, snapshot_packet, encoded_len, max_logical_payload}
use delta_stream.SmartDelta.Kind.{
  SmartDeltaCandidate, sparse, ranges, xor, splice, chunks, default_policy,
}
use delta_stream.SmartDelta.Dispatch.{encode_candidates}
use delta_stream.SmartDelta.Sparse.{encode_sparse}
use delta_stream.SmartDelta.Ranges.{encode_ranges}
use delta_stream.SmartDelta.Xor.{encode_xor}
use delta_stream.SmartDelta.Splice.{encode_splice}
use delta_stream.SmartDelta.Chunks.{encode_chunks}
use delta_stream.Varint.{put_var_u64}
use delta_stream.SmartDelta.Tuner.{new_tuner}
use delta_stream.ByteSync.Encoder.{ByteStateEncoder, V25Policy, encode}
use delta_stream.ByteSync.Decoder.{ByteStateDecoder, applied, apply}
use delta_stream.ByteSync.Search.Whole.{CandidatesFit}
use delta_stream.ByteSync.Sync.{InSync, advanced, apply-encode}
use delta_stream.ByteSync.Safety.{Advances, apply_cases}
use delta_stream.ByteSync.Total.{HasSent, encode_total}
use delta_stream.Tests.{toy, toy-IsLawful, toy-Compresses}

abbrev policy_ : V25Policy
policy_ = record {
  smart_delta = default_policy;
  enable_zstd = true;
  zstd_level = 1;
  min_compression_savings = 32;
  compression_cpu_penalty_bytes = 0;
}

abbrev old_state : List ℕ
old_state = 1 ∷ 2 ∷ 3 ∷ []

abbrev new_state : List ℕ
new_state = 1 ∷ 9 ∷ 3 ∷ []

abbrev sender : ByteStateEncoder
sender = record {
  sequence = 5;
  previous = some old_state;
  schema_hash = 7;
  policy = policy_;
  tuner = new_tuner;
  last_decision = none;
}

abbrev receiver : ByteStateDecoder
receiver = record { sequence = some 5; state = some old_state; schema_hash = 7 }

abbrev in_step : InSync sender receiver
in_step = record { schemas = refl; states = inr (old_state, refl, refl, refl) }

abbrev candidates : List SmartDeltaCandidate
candidates =
    record { kind = sparse; payload = 1 ∷ 3 ∷ 1 ∷ 1 ∷ 9 ∷ [] }
    ∷ record { kind = ranges; payload = 2 ∷ 3 ∷ 1 ∷ 1 ∷ 1 ∷ 9 ∷ [] }
    ∷ record { kind = xor; payload = 3 ∷ 3 ∷ 0 ∷ 11 ∷ 0 ∷ [] }
    ∷ record { kind = splice; payload = 4 ∷ 3 ∷ 1 ∷ 1 ∷ 1 ∷ 9 ∷ [] }
    ∷ record { kind = chunks; payload = 5 ∷ 3 ∷ 128 ∷ 8 ∷ 1 ∷ 0 ∷ 3 ∷ 1 ∷ 9 ∷ 3 ∷ [] }
    ∷ []

candidates_lem : encode_candidates old_state new_state default_policy ≡ ok candidates
unfolding encode_candidates encode_sparse encode_ranges encode_xor encode_splice encode_chunks
    put_var_u64 slice?
candidates_lem = refl

candidates-Fit : CandidatesFit policy_ (some old_state) new_state
candidates-Fit = (
  omega arith,
  λ cs h.
      subst (All (λ c. length c.payload ≤ max_logical_payload))
        (ok_injective candidates cs (sym candidates_lem ∙ h))
        (omega arith, (omega arith, (omega arith, (omega arith, (omega arith, tt))))),
)

-- What the sender makes of the new state.
abbrev sent :
    (e' : ByteStateEncoder) × (p : Packet) × (encode toy sender new_state ≡ (e', ok p))
    × HasSent sender e' new_state
sent = encode_total toy sender new_state toy-Compresses (omega arith)

encode_total_example :
    (e' : ByteStateEncoder) × (p : Packet) × (encode toy sender new_state ≡ (e', ok p))
    × HasSent sender e' new_state
encode_total_example = encode_total toy sender new_state toy-Compresses (omega arith)

apply-encode_example :
    (apply toy receiver sent.1 ≡ (advanced receiver 6 new_state, ok (applied 6 new_state)))
    × InSync sent.0 (advanced receiver 6 new_state)
    × (encoded_len sent.1 ≤ encoded_len (snapshot_packet 6 (fnv1a64 new_state) 7 new_state))
apply-encode_example =
    apply-encode toy toy-IsLawful sender sent.0 receiver new_state sent.1 in_step (omega arith)
      (omega arith) (omega arith) candidates-Fit sent.2

apply_cases_example :
    ((apply toy receiver sent.1).0 ≡ receiver)
    ⊎ ((bytes : List ℕ) × Advances toy receiver sent.1 bytes)
apply_cases_example = apply_cases toy receiver sent.1
