-- ===== src/Tests/Fast.antt =====
-- The fast encoder between two small states.
use delta_stream.Common.{
  ℕ, ◌*◌, ◌≤◌, ◌≡◌, refl, subst, true, inr, List, [], ◌∷◌, none, some, length, slice?, leb, All,
  arith,
}
use delta_stream.Error.{ok, ok_injective}
use delta_stream.Hash.{fnv1a64}
use delta_stream.Packet.{Packet, snapshot_packet, encoded_len, max_logical_payload}
use delta_stream.SmartDelta.Kind.{
  SmartDeltaKind, SmartDeltaCandidate, sparse, ranges, xor, splice, chunks, default_policy,
}
use delta_stream.SmartDelta.Dispatch.{encode_candidate}
use delta_stream.SmartDelta.Sparse.{encode_sparse}
use delta_stream.SmartDelta.Ranges.{encode_ranges}
use delta_stream.SmartDelta.Xor.{encode_xor}
use delta_stream.SmartDelta.Splice.{encode_splice}
use delta_stream.SmartDelta.Chunks.{encode_chunks}
use delta_stream.Varint.{put_var_u64}
use delta_stream.ByteSync.Decoder.{ByteStateDecoder, applied, apply}
use delta_stream.ByteSync.Sync.{InSync, advanced}
use delta_stream.FastSelector.{Floats, default_selector_policy, new_advisor, shortlist, analyze}
use delta_stream.FastSelector.Shortlist.{IsAdmitted, shortlist-IsAdmitted}
use delta_stream.Runtime.{new_metrics}
use delta_stream.V30Sync.{V30Policy, FastByteStateEncoder, encode}
use delta_stream.V30Sync.Deliver.{as_byte_encoder, apply-fast_encode}
use delta_stream.V30Sync.Total.{HasSent, fast_encode_total}
use delta_stream.Tests.{toy, toy-IsLawful, toy-Compresses}

-- Exact comparisons in place of the rounded ones.
abbrev exact : Floats
exact = record {
  percent_at_most = λ changed denom ratio. leb (changed * 100) (ratio * denom);
  percent_at_least_45 = λ changed denom. leb (45 * denom) (changed * 100);
  rate_at_least_15 = λ wins attempts. leb (15 * attempts) (wins * 100);
}

abbrev old_state : List ℕ
old_state = 1 ∷ 2 ∷ 3 ∷ []

abbrev new_state : List ℕ
new_state = 1 ∷ 9 ∷ 3 ∷ []

abbrev fast_policy : V30Policy
fast_policy = record {
  smart_delta = default_policy;
  selector = default_selector_policy;
  enable_zstd = true;
  zstd_level = 1;
  min_zstd_payload = 256;
  min_compression_savings = 8;
}

abbrev fast_sender : FastByteStateEncoder
fast_sender = record {
  sequence = 5;
  previous = some old_state;
  schema_hash = 7;
  policy = fast_policy;
  advisor = new_advisor default_selector_policy;
  metrics = new_metrics;
  last_decision = none;
}

abbrev receiver : ByteStateDecoder
receiver = record { sequence = some 5; state = some old_state; schema_hash = 7 }

abbrev in_step : InSync (as_byte_encoder fast_sender) receiver
in_step = record { schemas = refl; states = inr (old_state, refl, refl, refl) }

of_made :
    (x c : SmartDeltaCandidate)
    → length x.payload ≤ max_logical_payload
    → ok x ≡ ok c
    → length c.payload ≤ max_logical_payload
of_made x c small e =
    subst (λ (y : SmartDeltaCandidate). length y.payload ≤ max_logical_payload) (ok_injective x c e)
      small

kind-Fits :
    (k : SmartDeltaKind) (c : SmartDeltaCandidate)
    → encode_candidate k old_state new_state default_policy ≡ ok c
    → length c.payload ≤ max_logical_payload
unfolding encode_candidate encode_sparse encode_ranges encode_xor encode_splice encode_chunks
    put_var_u64 slice?
kind-Fits sparse c h = of_made _ c (omega arith) h
kind-Fits ranges c h = of_made _ c (omega arith) h
kind-Fits xor c h = of_made _ c (omega arith) h
kind-Fits splice c h = of_made _ c (omega arith) h
kind-Fits chunks c h = of_made _ c (omega arith) h

-- What the sender makes of the new state.
abbrev sent :
    (e' : FastByteStateEncoder) × (p : Packet) × (encode toy exact fast_sender new_state
      ≡ (e', ok p))
    × HasSent fast_sender e' new_state
sent = fast_encode_total toy exact fast_sender new_state toy-Compresses (omega arith)

fast_encode_total_example :
    (e' : FastByteStateEncoder) × (p : Packet) × (encode toy exact fast_sender new_state
      ≡ (e', ok p))
    × HasSent fast_sender e' new_state
fast_encode_total_example =
    fast_encode_total toy exact fast_sender new_state toy-Compresses (omega arith)

apply-fast_encode_example :
    (apply toy receiver sent.1 ≡ (advanced receiver 6 new_state, ok (applied 6 new_state)))
    × InSync (as_byte_encoder sent.0) (advanced receiver 6 new_state)
    × (encoded_len sent.1 ≤ encoded_len (snapshot_packet 6 (fnv1a64 new_state) 7 new_state))
apply-fast_encode_example =
    apply-fast_encode toy toy-IsLawful exact fast_sender sent.0 receiver new_state sent.1 in_step
      (omega arith) (omega arith) (omega arith) (omega arith, kind-Fits) sent.2

shortlist-IsAdmitted_example :
    All
      (IsAdmitted old_state (4 ∷ old_state))
      (shortlist exact (new_advisor default_selector_policy) (analyze old_state (4 ∷ old_state)))
shortlist-IsAdmitted_example =
    shortlist-IsAdmitted exact (new_advisor default_selector_policy) old_state (4 ∷ old_state)
