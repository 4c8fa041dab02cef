-- ===== src/V30Sync/Deliver.antt =====
-- What the fast encoder sends is what `ByteStateDecoder` applies.
use delta_stream.Common.{
  ℕ, ◌+◌, ◌-◌, ◌≤◌, ◌<◌, ◌≡◌, refl, sym, ap, subst, ◌∙◌, ◌&&◌, inl, inr, Bool-cases, List, [], ◌∷◌,
  Option, none, some, length, ltb, leb, u64_max, isize_max, IsU64, checked_add-some, arith,
}
use delta_stream.Error.{ok, err, Result-cases, ok_injective, err-ne-ok}
use delta_stream.Hash.{fnv1a64}
use delta_stream.Libraries.{Libraries, IsLawful}
use delta_stream.Packet.{
  Packet, snapshot_packet, delta_packet, encoded_len, is_compressed, zstd_candidate,
  max_logical_payload,
}
use delta_stream.SmartDelta.Kind.{SmartDeltaKind, SmartDeltaCandidate}
use delta_stream.SmartDelta.Tuner.{new_tuner}
use delta_stream.SmartDelta.Dispatch.{encode_candidate}
use delta_stream.SmartDelta.Dispatch.RoundTrip.{encode_candidate-Leads}
use delta_stream.ByteSync.Encoder.{ByteStateEncoder, V25Policy}
use delta_stream.ByteSync.Decoder.{ByteStateDecoder, applied, apply}
use delta_stream.ByteSync.Search.{Delivers, raw_logical, candidate-Good}
use delta_stream.ByteSync.Sync.{InSync, advanced, Delivers-apply}
use delta_stream.FastSelector.{Floats, should_compress, shortlist, analyze}
use delta_stream.V30Sync.{
  V30Policy, V30EncodeMode, FastByteStateEncoder, Hunt, Stage, then_stage, weigh_delta,
  weigh_compressed, try_compressed, try_kind, try_kinds, try_first, hunt_packet, finish, encode,
}

-- The part of the policy and of the encoder that the byte encoder has as well.
abbrev pub as_v25 : V30Policy → V25Policy
as_v25 policy = record {
  smart_delta = policy.smart_delta;
  enable_zstd = policy.enable_zstd;
  zstd_level = policy.zstd_level;
  min_compression_savings = policy.min_compression_savings;
  compression_cpu_penalty_bytes = 0;
}

abbrev pub as_byte_encoder : FastByteStateEncoder → ByteStateEncoder
as_byte_encoder e = record {
  sequence = e.sequence;
  previous = e.previous;
  schema_hash = e.schema_hash;
  policy = as_v25 e.policy;
  tuner = new_tuner;
  last_decision = none;
}

-- Every delta against the previous state fits the limit of 64 MiB on a logical payload.
abbrev pub KindsFit : V30Policy → Option (List ℕ) → List ℕ → Type 0
KindsFit policy none current = Unit
KindsFit policy (some base) current =
    (length base ≤ isize_max)
    × ((k : SmartDeltaKind) (c : SmartDeltaCandidate)
        → encode_candidate k base current policy.smart_delta ≡ ok c
        → length c.payload ≤ max_logical_payload)

module _ (lib : Libraries) (law : IsLawful lib) (floats : Floats) (policy : V30Policy)
    (sequence schema : ℕ) (previous : Option (List ℕ)) (current : List ℕ) (limit : ℕ) where
  abbrev Good : Packet → Type 0
  Good = Delivers lib sequence schema previous current

  -- What the search keeps true of its variables; `limit` is the size of the snapshot packet.
  record Keeps (h : Hunt) : Type 0 where
    good : Good h.best
    bounded : encoded_len h.best ≤ limit

  abbrev Ends : Stage → Type 0
  Ends (h, err e) = Unit
  Ends (h, ok _) = Keeps h

  candidate :
      (p q : Packet)
      → p.flags ≡ 0
      → length p.payload ≤ max_logical_payload
      → zstd_candidate lib p policy.zstd_level policy.min_compression_savings ≡ ok q
      → Good p
      → Good q
  candidate p q =
      candidate-Good lib law (as_v25 policy) sequence schema previous current p q policy.zstd_level
        policy.min_compression_savings

  weigh_delta-Keeps :
      (p : Packet) (k : SmartDeltaKind) (h : Hunt)
      → Good p
      → Keeps h
      → Keeps (weigh_delta lib floats policy p k h)
  unfolding weigh_delta
  weigh_delta-Keeps p k h g i = elim (Bool-cases (ltb (encoded_len p) (encoded_len h.best))) [
    | inl better ↦ rw better (record { good = g; bounded = ground (arith, i.bounded) })
    | inr worse ↦ rw worse (record { good = i.good; bounded = i.bounded })
  ]

  weigh_compressed-Keeps :
      (p : Packet) (k : SmartDeltaKind) (q : Packet) (h : Hunt)
      → Good q
      → Keeps h
      → Keeps (weigh_compressed lib floats policy p k q h)
  unfolding weigh_compressed
  weigh_compressed-Keeps p k q h g i =
      elim (Bool-cases (is_compressed q && ltb (encoded_len q) (encoded_len h.best))) [
        | inl better ↦ rw better (record { good = g; bounded = ground (arith, i.bounded) })
        | inr worse ↦ rw worse (record { good = i.good; bounded = i.bounded })
      ]

  try_compressed-Ends :
      (p : Packet) (k : SmartDeltaKind) (h : Hunt)
      → p.flags ≡ 0
      → length p.payload ≤ max_logical_payload
      → Good p
      → Keeps h
      → Ends (try_compressed lib floats policy p k h)
  unfolding try_compressed
  try_compressed-Ends p k h none_set fits g i =
      elim (Bool-cases (
        policy.enable_zstd
        && should_compress floats h.advisor (length p.payload) policy.min_zstd_payload)) [
          | inr skip ↦ rw skip i
          | inl try ↦
              elim (Result-cases
                (zstd_candidate lib p policy.zstd_level policy.min_compression_savings)) [
                  | inr (e, failed) ↦ rw (try, failed) tt
                  | inl (q, made) ↦
                      rw (try, made)
                        (weigh_compressed-Keeps p k q h (candidate p q none_set fits made g) i)
                ]
        ]

  try_first-Ends :
      (h : Hunt)
      → h.best.flags ≡ 0
      → length h.best.payload ≤ max_logical_payload
      → Keeps h
      → Ends (try_first lib floats policy current h)
  unfolding try_first
  try_first-Ends h none_set fits i =
      elim (Bool-cases (policy.enable_zstd && leb policy.min_zstd_payload (length current))) [
        | inr skip ↦ rw skip i
        | inl try ↦
            elim (Result-cases
              (zstd_candidate lib h.best policy.zstd_level policy.min_compression_savings)) [
                | inr (e, failed) ↦ rw (try, failed) tt
                | inl (q, made) ↦
                    elim (Bool-cases
                      (is_compressed q && ltb (encoded_len q) (encoded_len h.best))) [
                        | inl better ↦
                            rw (try, made, better)
                              (record {
                                good = candidate h.best q none_set fits made i.good;
                                bounded = ground (arith, i.bounded);
                              })
                        | inr worse ↦
                            rw (try, made, worse) (record { good = i.good; bounded = i.bounded })
                      ]
              ]
      ]

  then_stage-Ends :
      (m : Stage) (rest : Hunt → Stage)
      → Ends m
      → ((h : Hunt) → Keeps h → Ends (rest h))
      → Ends (then_stage m rest)
  unfolding then_stage
  then_stage-Ends (h, err e) rest i k = tt
  then_stage-Ends (h, ok u) rest i k = k h i

  module _ (base : List ℕ) (known : previous ≡ some base)
      (size : IsU64 policy.smart_delta.chunk_size) (fits : length current ≤ max_logical_payload)
      (all_fit : KindsFit policy (some base) current) where
    abbrev make : List ℕ → Packet
    make = delta_packet sequence (sequence - 1) (fnv1a64 base) schema

    make-Good :
        (k : SmartDeltaKind) (c : SmartDeltaCandidate)
        → encode_candidate k base current policy.smart_delta ≡ ok c
        → Good (make c.payload)
    make-Good k c made =
        let small = all_fit.1 k c made in
        let ((applies, kind_eq), is_kind) =
          encode_candidate-Leads base current policy.smart_delta all_fit.0 (omega (arith, fits))
            size k c made (omega (arith, small)) in
        record {
          sequence_eq = refl;
          schema_eq = refl;
          way = inr (
            base,
            c.payload,
            known,
            refl,
            refl,
            refl,
            raw_logical lib law (as_v25 policy) sequence schema previous current (make c.payload)
                refl small,
            applies,
          );
        }

    try_kind-Ends :
        (k : SmartDeltaKind) (h : Hunt)
        → Keeps h
        → Ends (try_kind lib floats policy make base current k h)
    unfolding try_kind
    try_kind-Ends k h i = elim (Result-cases (encode_candidate k base current policy.smart_delta)) [
      | inr (e, failed) ↦ rw (failed, try_kind) tt
      | inl (c, made) ↦
          let g = make-Good k c made in
          rw (made, try_kind)
            (try_compressed-Ends (make c.payload) k
              (weigh_delta lib floats policy (make c.payload) k h) refl (all_fit.1 k c made) g
              (weigh_delta-Keeps (make c.payload) k h g i))
    ]

    try_kinds-Ends :
        (ks : List SmartDeltaKind) (h : Hunt)
        → Keeps h
        → Ends (try_kinds lib floats policy make base current ks h)
    unfolding try_kinds
    try_kinds-Ends [] h i = i
    try_kinds-Ends (k ∷ ks) h i =
        then_stage-Ends _ (λ h'. try_kinds lib floats policy make base current ks h')
          (try_kind-Ends k h i) (λ h' i'. try_kinds-Ends ks h' i')

  hunt_packet-Ends :
      (o : Option (List ℕ)) (h : Hunt)
      → previous ≡ o
      → IsU64 policy.smart_delta.chunk_size
      → length current ≤ max_logical_payload
      → KindsFit policy o current
      → h.best.flags ≡ 0
      → length h.best.payload ≤ max_logical_payload
      → Keeps h
      → Ends (hunt_packet lib floats policy sequence schema o current h)
  unfolding hunt_packet
  hunt_packet-Ends none h known size fits all_fit none_set small i =
      try_first-Ends h none_set small i
  hunt_packet-Ends (some base) h known size fits all_fit none_set small i =
      then_stage-Ends _ _
        (try_kinds-Ends base known size fits all_fit
          (shortlist floats h.advisor (analyze base current)) _
          (record { good = i.good; bounded = i.bounded }))
        (λ h' i'. record { good = i'.good; bounded = i'.bounded })

-- What a finished search leaves in the encoder.
record Finished (self : FastByteStateEncoder) (sequence : ℕ) (current : List ℕ)
    (e' : FastByteStateEncoder) : Type 0 where
  sequence_eq : e'.sequence ≡ sequence
  previous_eq : e'.previous ≡ some current
  schema_eq : e'.schema_hash ≡ self.schema_hash

finish_inv :
    (self : FastByteStateEncoder) (sequence : ℕ) (current : List ℕ) (st : Stage)
    (e' : FastByteStateEncoder) (p : Packet)
    → finish self sequence current st ≡ (e', ok p)
    → (h : Hunt) × (st ≡ (h, ok tt)) × (h.best ≡ p) × Finished self sequence current e'
unfolding finish
finish_inv self sequence current (h, err x) e' p eq = absurd (err-ne-ok x p (ap (λ r. r.1) eq))
finish_inv self sequence current (h, ok u) e' p eq = (
  h,
  refl,
  ok_injective h.best p (ap (λ r. r.1) eq),
  record {
    sequence_eq = sym (ap (λ r. r.0.sequence) eq);
    previous_eq = sym (ap (λ r. r.0.previous) eq);
    schema_eq = sym (ap (λ r. r.0.schema_hash) eq);
  },
)

-- The variables at the start of the search.
abbrev begun : FastByteStateEncoder → List ℕ → Hunt
begun e current = record {
  best = snapshot_packet (e.sequence + 1) (fnv1a64 current) e.schema_hash current;
  mode = V30EncodeMode.snapshot;
  considered = 1;
  profile = none;
  advisor = e.advisor;
}

abbrev hunted : Libraries → Floats → FastByteStateEncoder → List ℕ → Stage
hunted lib floats e current =
    hunt_packet lib floats e.policy (e.sequence + 1) e.schema_hash e.previous current
      (begun e current)

encode_lem :
    (lib : Libraries) (floats : Floats) (e : FastByteStateEncoder) (current : List ℕ)
    → e.sequence < u64_max
    → encode lib floats e current ≡ finish e (e.sequence + 1) current (hunted lib floats e current)
unfolding encode
encode_lem lib floats e current room = rw (checked_add-some e.sequence 1 (omega arith), encode) refl

hunted-Keeps :
    (lib : Libraries) (law : IsLawful lib) (floats : Floats) (e : FastByteStateEncoder)
    (current : List ℕ) (h : Hunt)
    → IsU64 e.policy.smart_delta.chunk_size
    → length current ≤ max_logical_payload
    → KindsFit e.policy e.previous current
    → hunted lib floats e current ≡ (h, ok tt)
    → Keeps lib law floats e.policy
        (e.sequence + 1)
        e.schema_hash
        e.previous
        current
        (encoded_len (snapshot_packet (e.sequence + 1) (fnv1a64 current) e.schema_hash current))
        h
hunted-Keeps lib law floats e current h size fits all_fit found =
    let limit = encoded_len (begun e current).best in
    let raw =
      raw_logical lib law (as_v25 e.policy) (e.sequence + 1) e.schema_hash e.previous current
        (begun e current).best refl fits in
    let start : Keeps lib law floats e.policy (e.sequence + 1) e.schema_hash e.previous current
        limit (begun e current) =
      record {
        good = record { sequence_eq = refl; schema_eq = refl; way = inl (refl, refl, raw) };
        bounded = omega arith;
      } in
    subst (Ends lib law floats e.policy (e.sequence + 1) e.schema_hash e.previous current limit)
      found
      (hunt_packet-Ends lib law floats e.policy (e.sequence + 1) e.schema_hash e.previous current
        limit e.previous (begun e current) refl size fits all_fit refl fits start)

-- Let the fast encoder and a byte decoder be in step: the same schema, and either neither has seen
-- a state or both hold the same state at the same sequence. If a sequence is left, the chunk size
-- is a `u64`, the state and the deltas fit 64 MiB, and `encode` returns a packet, then `apply` of
-- that packet yields exactly the encoded state at the next sequence, both sides are in step again,
-- and the packet is no larger than the plain snapshot packet. The zstd and CRC libraries are
-- assumed lawful; the comparisons of floats may answer anything.
pub apply-fast_encode :
    (lib : Libraries) (law : IsLawful lib) (floats : Floats) (e e' : FastByteStateEncoder)
    (d : ByteStateDecoder) (current : List ℕ) (p : Packet)
    → InSync (as_byte_encoder e) d
    → e.sequence < u64_max
    → IsU64 e.policy.smart_delta.chunk_size
    → length current ≤ max_logical_payload
    → KindsFit e.policy e.previous current
    → encode lib floats e current ≡ (e', ok p)
    → (apply lib d p ≡ (advanced d (e.sequence + 1) current, ok (applied (e.sequence + 1) current)))
      × InSync (as_byte_encoder e') (advanced d (e.sequence + 1) current)
      × (encoded_len p
          ≤ encoded_len (snapshot_packet (e.sequence + 1) (fnv1a64 current) e.schema_hash current))
apply-fast_encode lib law floats e e' d current p sync room size fits all_fit made =
    let (h, found, best, f) =
      finish_inv e (e.sequence + 1) current (hunted lib floats e current) e' p
        (sym (encode_lem lib floats e current room) ∙ made) in
    let i = hunted-Keeps lib law floats e current h size fits all_fit found in
    let good = subst (Delivers lib (e.sequence + 1) e.schema_hash e.previous current) best i.good in
    (
      Delivers-apply lib (as_byte_encoder e) d current p sync good,
      record {
        schemas = f.schema_eq ∙ sync.schemas;
        states = inr (current, f.previous_eq, ap some (sym f.sequence_eq), refl);
      },
      subst (λ q. encoded_len q ≤ encoded_len (begun e current).best) best i.bounded,
    )
