-- ===== src/ByteSync/Search/Whole.antt =====
-- The search over all candidates, from the snapshot on.
use delta_stream.Common.{
  ℕ, ◌-◌, ◌≤◌, ◌≡◌, refl, subst, inl, inr, List, [], ◌∷◌, Option, none, some, length, isize_max,
  All, IsU64, arith,
}
use delta_stream.Error.{DeltaError, ok, err, Result-cases}
use delta_stream.Hash.{fnv1a64}
use delta_stream.Libraries.{Libraries, IsLawful}
use delta_stream.Packet.{snapshot_packet, delta_packet, encoded_len, max_logical_payload}
use delta_stream.SmartDelta.Kind.{SmartDeltaCandidate}
use delta_stream.SmartDelta.Tuner.{AdaptiveTuner}
use delta_stream.SmartDelta.Dispatch as Smart
use delta_stream.SmartDelta.Dispatch.{encode_candidates}
use delta_stream.SmartDelta.Dispatch.Candidates.{encode_candidates-Leads}
use delta_stream.SmartDelta.Dispatch.RoundTrip.{Leads}
use delta_stream.ByteSync.Encoder.{
  ByteEncodeMode, V25Policy, Search, try_candidates, try_deltas, search_packet,
}
use delta_stream.ByteSync.Search.{
  Delivers, Keeps, Ends, raw_logical, try_compressed-Ends, then_step-Ends, try_candidates-Ends,
}

-- The candidates against the previous state fit the limit of 64 MiB on a logical payload.
abbrev pub CandidatesFit : V25Policy → Option (List ℕ) → List ℕ → Type 0
CandidatesFit policy none current = Unit
CandidatesFit policy (some base) current =
    (length base ≤ isize_max)
    × ((cs : List SmartDeltaCandidate)
        → encode_candidates base current policy.smart_delta ≡ ok cs
        → All (λ c. length c.payload ≤ max_logical_payload) cs)

Leads-Fits :
    (base current : List ℕ) (cs : List SmartDeltaCandidate)
    → All (λ c. Leads base current c.kind c.payload) cs
    → All (λ c. length c.payload ≤ max_logical_payload) cs
    → All
        (λ c. (Smart.apply base c.payload ≡ ok current) × (length c.payload ≤ max_logical_payload))
        cs
Leads-Fits base current [] l f = tt
Leads-Fits base current (c ∷ cs) l f = ((l.0.0, f.0), Leads-Fits base current cs l.1 f.1)

weaken :
    (cs : List SmartDeltaCandidate)
    → All (λ c. length c.payload ≤ max_logical_payload) cs
    → All (λ c. length c.payload ≤ isize_max) cs
weaken [] f = tt
weaken (c ∷ cs) f = (omega (arith, f.0), weaken cs f.1)

module _ (lib : Libraries) (policy : V25Policy) (sequence schema : ℕ) (base current : List ℕ)
    (s : Search) where
  deltas_made :
      (cs : List SmartDeltaCandidate)
      → encode_candidates base current policy.smart_delta ≡ ok cs
      → try_deltas lib policy sequence schema (some base) current s
        ≡ try_candidates lib policy
            (delta_packet sequence (sequence - 1) (fnv1a64 base) schema)
            cs
            s
  unfolding try_deltas
  deltas_made cs e = rw (e, try_deltas) refl

  deltas_failed :
      (e : DeltaError)
      → encode_candidates base current policy.smart_delta ≡ err e
      → try_deltas lib policy sequence schema (some base) current s ≡ (s, err e)
  unfolding try_deltas
  deltas_failed e f = rw (f, try_deltas) refl

module _ (lib : Libraries) (law : IsLawful lib) (policy : V25Policy) (sequence schema : ℕ) where
  try_deltas-Ends :
      (previous : Option (List ℕ)) (current : List ℕ) (limit : ℕ) (s : Search)
      → limit ≤ isize_max
      → IsU64 policy.smart_delta.chunk_size
      → length current ≤ max_logical_payload
      → CandidatesFit policy previous current
      → Keeps lib law policy sequence schema previous current limit s
      → Ends lib law policy sequence schema previous current limit
          (try_deltas lib policy sequence schema previous current s)
  try_deltas-Ends none current limit s small size fits f k = unfold try_deltas in k
  try_deltas-Ends (some base) current limit s small size fits f k =
      elim (Result-cases (encode_candidates base current policy.smart_delta)) [
        | inr (e, failed) ↦ rw (deltas_failed lib policy sequence schema base current s e failed) tt
        | inl (cs, made) ↦
            let within = f.1 cs made in
            let (leads, kinds) =
              encode_candidates-Leads base current policy.smart_delta f.0 (omega arith) size cs made
                (weaken cs within) in
            rw (deltas_made lib policy sequence schema base current s cs made) (
              try_candidates-Ends lib law policy sequence schema (some base) current base refl limit
                cs s small (Leads-Fits base current cs leads within) k)
      ]

  -- A search that succeeds ends with a packet that delivers `current` and is no larger than the
  -- snapshot packet.
  pub search_packet-Delivers :
      (previous : Option (List ℕ)) (current : List ℕ) (tuner : AdaptiveTuner) (s : Search)
      → IsU64 policy.smart_delta.chunk_size
      → length current ≤ max_logical_payload
      → CandidatesFit policy previous current
      → search_packet lib policy sequence schema previous tuner current ≡ (s, ok tt)
      → Delivers lib sequence schema previous current s.best
        × (encoded_len s.best
            ≤ encoded_len (snapshot_packet sequence (fnv1a64 current) schema current))
  unfolding search_packet
  search_packet-Delivers previous current tuner s size fits f h =
      let packet = snapshot_packet sequence (fnv1a64 current) schema current in
      let limit = encoded_len packet in
      let small : limit ≤ isize_max = unfold encoded_len in omega arith in
      let raw = raw_logical lib law policy sequence schema previous current packet refl fits in
      let good : Delivers lib sequence schema previous current packet = record {
        sequence_eq = refl;
        schema_eq = refl;
        way = inl (refl, refl, raw);
      } in
      let start : Search = record {
        best = packet;
        mode = ByteEncodeMode.snapshot;
        best_score = limit;
        considered = 1;
        tuner = tuner;
      } in
      let begun : Keeps lib law policy sequence schema previous current limit start = record {
        good = good;
        scored = omega arith;
        bounded = omega arith;
      } in
      let ended =
        then_step-Ends lib law policy sequence schema previous current limit _
          (λ s. try_deltas lib policy sequence schema previous current s)
          (try_compressed-Ends lib law policy sequence schema previous current limit packet
            ByteEncodeMode.snapshot_zstd start small refl fits good begun)
          (λ s' k. try_deltas-Ends previous current limit s' small size fits f k) in
      let k : Keeps lib law policy sequence schema previous current limit s =
        subst (Ends lib law policy sequence schema previous current limit) h ended in
      (k.good, omega arith)
