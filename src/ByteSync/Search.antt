-- ===== src/ByteSync/Search.antt =====
-- The search of the encoder only ever holds packets that deliver the current state, and none that
-- is larger than the snapshot.
pub mod Whole
use delta_stream.Common.{
  ℕ, ◌+◌, ◌-◌, ◌≤◌, ◌<◌, ◌≡◌, ◌⊎◌, refl, sym, ap, subst, ◌∙◌, Bool, true, false, ◌&&◌, inl, inr,
  Bool-cases, List, [], ◌∷◌, Option, none, some, length, ltb, saturating_add, u64_max, isize_max,
  All, IsU64, ltb-eq-false, if◌then◌else◌, arith,
}
use delta_stream.Error.{Result, DeltaError, ok, err, Result-cases, ok_injective, err-ne-ok}
use delta_stream.Hash.{fnv1a64}
use delta_stream.Libraries.{Libraries, IsLawful}
use delta_stream.Packet.{
  Packet, PacketKind, snapshot_packet, delta_packet, encoded_len, is_compressed, zstd_candidate,
  logical_payload, logical_payload_with_config, default_config, max_logical_payload,
}
use delta_stream.Packet.Compress.{
  IsCandidate, kept, packed, zstd_candidate-IsCandidate, zstd_candidate-logical,
}
use delta_stream.SmartDelta.Kind.{SmartDeltaKind, SmartDeltaCandidate}
use delta_stream.SmartDelta.Tuner.{AdaptiveTuner, should_try_zstd, observe_compression}
use delta_stream.SmartDelta.Dispatch as Smart
use delta_stream.SmartDelta.Dispatch.{encode_candidates}
use delta_stream.SmartDelta.Dispatch.Candidates.{encode_candidates-Leads}
use delta_stream.SmartDelta.Dispatch.RoundTrip.{Leads}
use delta_stream.ByteSync.Encoder.{
  ByteEncodeMode, V25Policy, Search, Step, then_step, weigh_compressed, try_compressed, weigh_delta,
  try_candidates, try_deltas, search_packet,
}

-- A packet that turns `previous` into `current` on a receiver that stands one sequence earlier.
pub record Delivers (lib : Libraries) (sequence schema : ℕ) (previous : Option (List ℕ))
    (current : List ℕ) (p : Packet) : Type 0 where
  pub sequence_eq : p.sequence ≡ sequence
  pub schema_eq : p.schema_hash ≡ schema
  pub way :
      ((p.kind ≡ PacketKind.snapshot)
        × (p.base_hash ≡ fnv1a64 current)
        × (logical_payload lib p ≡ ok current))
      ⊎ ((base : List ℕ) × (payload : List ℕ) × (previous ≡ some base)
          × (p.kind ≡ PacketKind.delta)
          × (p.base_sequence ≡ sequence - 1)
          × (p.base_hash ≡ fnv1a64 base)
          × (logical_payload lib p ≡ ok payload)
          × (Smart.apply base payload ≡ ok current))

module _ (lib : Libraries) (law : IsLawful lib) (policy : V25Policy) (sequence schema : ℕ)
    (previous : Option (List ℕ)) (current : List ℕ) where
  abbrev pub Good : Packet → Type 0
  Good = Delivers lib sequence schema previous current

  -- What the search keeps true of its variables; `limit` is the size of the snapshot packet.
  pub record Keeps (limit : ℕ) (s : Search) : Type 0 where
    pub good : Good s.best
    pub scored : encoded_len s.best ≤ s.best_score
    pub bounded : s.best_score ≤ limit

  -- A step that keeps it, if it does not fail.
  abbrev pub Ends : ℕ → Step → Type 0
  Ends limit (s, err e) = Unit
  Ends limit (s, ok _) = Keeps limit s

  pub raw_logical :
      (p : Packet)
      → p.flags ≡ 0
      → length p.payload ≤ max_logical_payload
      → logical_payload lib p ≡ ok p.payload
  unfolding logical_payload logical_payload_with_config is_compressed
  raw_logical p none_set fits =
      rw (none_set, ltb-eq-false max_logical_payload (length p.payload) fits) refl

  -- The same packet with a payload of the same meaning delivers the same.
  Good-payload :
      (p : Packet) (flags_ : ℕ) (bytes : List ℕ)
      → logical_payload lib (record p { flags = flags_; payload = bytes }) ≡ logical_payload lib p
      → Good p
      → Good (record p { flags = flags_; payload = bytes })
  Good-payload p flags_ bytes e g = record {
    sequence_eq = g.sequence_eq;
    schema_eq = g.schema_eq;
    way = elim g.way [
      | inl (k, h, l) ↦ inl (k, h, e ∙ l)
      | inr (base, payload, b, k, s, h, l, a) ↦ inr (base, payload, b, k, s, h, e ∙ l, a)
    ];
  }

  pub candidate-Good :
      (p q : Packet) (level savings : ℕ)
      → p.flags ≡ 0
      → length p.payload ≤ max_logical_payload
      → zstd_candidate lib p level savings ≡ ok q
      → Good p
      → Good q
  candidate-Good p q level savings none_set fits h g =
      let same : logical_payload lib q ≡ ok p.payload =
        unfold logical_payload in
        (zstd_candidate-logical lib law p level savings q default_config none_set (omega arith) fits
          h).0 in
      let raw = raw_logical p none_set fits in
      go q (zstd_candidate-IsCandidate lib p level savings q (omega arith) h) (same ∙ sym raw)
    where
      go :
          (q : Packet)
          → IsCandidate lib p level q
          → logical_payload lib q ≡ logical_payload lib p
          → Good q
      go q (kept e) l = subst Good e g
      go q (packed bytes c shorter e) l =
          subst Good e (Good-payload p _ bytes (ap (logical_payload lib) e ∙ l) g)

  weigh_compressed-Keeps :
      (limit : ℕ) (packet compressed : Packet) (mode : ByteEncodeMode) (s : Search)
      → limit ≤ isize_max
      → Good compressed
      → Keeps limit s
      → Keeps limit (weigh_compressed lib policy packet mode compressed s)
  unfolding weigh_compressed
  weigh_compressed-Keeps limit packet compressed mode s small g k =
      let score =
        saturating_add (encoded_len compressed)
          (if is_compressed compressed then policy.compression_cpu_penalty_bytes else 0) in
      elim (Bool-cases (is_compressed compressed && ltb score s.best_score)) [
        | inl better ↦
            rw better (record { good = g; scored = ground arith; bounded = ground arith })
        | inr worse ↦ rw worse (record { good = k.good; scored = k.scored; bounded = k.bounded })
      ]

  pub try_compressed-Ends :
      (limit : ℕ) (packet : Packet) (mode : ByteEncodeMode) (s : Search)
      → limit ≤ isize_max
      → packet.flags ≡ 0
      → length packet.payload ≤ max_logical_payload
      → Good packet
      → Keeps limit s
      → Ends limit (try_compressed lib policy packet mode s)
  unfolding try_compressed
  try_compressed-Ends limit packet mode s small none_set fits g k =
      elim (Bool-cases (policy.enable_zstd && should_try_zstd s.tuner (length packet.payload))) [
        | inr skip ↦ rw skip k
        | inl try ↦
            elim (Result-cases
              (zstd_candidate lib packet policy.zstd_level policy.min_compression_savings)) [
                | inr (e, failed) ↦ rw (try, failed) tt
                | inl (compressed, made) ↦
                    rw (try, made)
                      (weigh_compressed-Keeps limit packet compressed mode s small
                        (candidate-Good packet compressed policy.zstd_level
                          policy.min_compression_savings none_set fits made g)
                        k)
              ]
      ]

  weigh_delta-Keeps :
      (limit : ℕ) (packet : Packet) (kind : SmartDeltaKind) (s : Search)
      → Good packet
      → Keeps limit s
      → Keeps limit (weigh_delta lib policy packet kind s)
  unfolding weigh_delta
  weigh_delta-Keeps limit packet kind s g k =
      elim (Bool-cases (ltb (encoded_len packet) s.best_score)) [
        | inl better ↦ rw better (record { good = g; scored = omega arith; bounded = ground arith })
        | inr worse ↦ rw worse (record { good = k.good; scored = k.scored; bounded = k.bounded })
      ]

  pub then_step-Ends :
      (limit : ℕ) (m : Step) (rest : Search → Step)
      → Ends limit m
      → ((s : Search) → Keeps limit s → Ends limit (rest s))
      → Ends limit (then_step m rest)
  unfolding then_step
  then_step-Ends limit (s, err e) rest h k = tt
  then_step-Ends limit (s, ok u) rest h k = k s h

  -- A payload that turns the base into the current state and fits the receiver's limit.
  abbrev pub Fits : List ℕ → SmartDeltaCandidate → Type 0
  Fits base c = (Smart.apply base c.payload ≡ ok current) × (length c.payload ≤ max_logical_payload)

  module _ (base : List ℕ) (known : previous ≡ some base) where
    abbrev pub make : List ℕ → Packet
    make = delta_packet sequence (sequence - 1) (fnv1a64 base) schema

    make-Good : (c : SmartDeltaCandidate) → Fits base c → Good (make c.payload)
    make-Good c f = record {
      sequence_eq = refl;
      schema_eq = refl;
      way =
          inr
            (base, c.payload, known, refl, refl, refl, raw_logical (make c.payload) refl f.1, f.0);
    }

    pub try_candidates-Ends :
        (limit : ℕ) (cs : List SmartDeltaCandidate) (s : Search)
        → limit ≤ isize_max
        → All (Fits base) cs
        → Keeps limit s
        → Ends limit (try_candidates lib policy make cs s)
    unfolding try_candidates
    try_candidates-Ends limit [] s small f k = k
    try_candidates-Ends limit (c ∷ cs) s small f k =
        let g = make-Good c f.0 in
        then_step-Ends limit _ (λ s'. try_candidates lib policy make cs s')
          (try_compressed-Ends limit (make c.payload) (ByteEncodeMode.delta_zstd c.kind)
            (weigh_delta lib policy (make c.payload) c.kind s) small refl f.0.1 g
            (weigh_delta-Keeps limit (make c.payload) c.kind s g k))
          (λ s' k'. try_candidates-Ends limit cs s' small f.1 k')
