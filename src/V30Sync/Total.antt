-- ===== src/V30Sync/Total.antt =====
-- The short list never makes the fast encoder fail.
use delta_stream.Common.{
  ℕ, ◌+◌, ◌<◌, ◌≡◌, refl, ◌&&◌, inl, inr, Bool-cases, List, [], ◌∷◌, Option, none, some, length,
  leb, u64_max, checked_add-some, All, arith,
}
use delta_stream.Error.{ok}
use delta_stream.Hash.{fnv1a64}
use delta_stream.Libraries.{Libraries}
use delta_stream.Packet.{Packet, snapshot_packet}
use delta_stream.SmartDelta.Kind.{SmartDeltaKind}
use delta_stream.SmartDelta.Dispatch.Candidates.{encode_candidate_total}
use delta_stream.ByteSync.Total.{Compresses, zstd_candidate_total}
use delta_stream.FastSelector.{Floats, should_compress, shortlist, analyze}
use delta_stream.FastSelector.Shortlist.{IsAdmitted, shortlist-IsAdmitted}
use delta_stream.V30Sync.{
  V30Policy, V30EncodeMode, FastByteStateEncoder, Hunt, Stage, then_stage, weigh_delta,
  try_compressed, try_kind, try_kinds, try_first, hunt_packet, finish, encode,
}

module _ (lib : Libraries) (never : Compresses lib) (floats : Floats) (policy : V30Policy) where
  -- A step that did not fail.
  abbrev Succeeds : Stage → Type 0
  Succeeds st = (h : Hunt) × (st ≡ (h, ok tt))

  try_compressed_total :
      (p : Packet) (k : SmartDeltaKind) (h : Hunt)
      → Succeeds (try_compressed lib floats policy p k h)
  unfolding try_compressed
  try_compressed_total p k h =
      elim (Bool-cases (
        policy.enable_zstd
        && should_compress floats h.advisor (length p.payload) policy.min_zstd_payload)) [
          | inr skip ↦ rw skip (_, refl)
          | inl try ↦
              let (q, made) =
                zstd_candidate_total lib never p policy.zstd_level policy.min_compression_savings in
              rw (try, made) (_, refl)
        ]

  try_first_total : (current : List ℕ) (h : Hunt) → Succeeds (try_first lib floats policy current h)
  unfolding try_first
  try_first_total current h =
      elim (Bool-cases (policy.enable_zstd && leb policy.min_zstd_payload (length current))) [
        | inr skip ↦ rw skip (_, refl)
        | inl try ↦
            let (q, made) =
              zstd_candidate_total lib never h.best policy.zstd_level
                policy.min_compression_savings in
            rw (try, made) (_, refl)
      ]

  then_stage_total :
      (st : Stage) (rest : Hunt → Stage)
      → Succeeds st
      → ((h : Hunt) → Succeeds (rest h))
      → Succeeds (then_stage st rest)
  unfolding then_stage
  then_stage_total st rest (h, e) k = let (h', e') = k h in (h', rw e e')

  try_kinds_total :
      (make : List ℕ → Packet) (base current : List ℕ) (ks : List SmartDeltaKind) (h : Hunt)
      → All (IsAdmitted base current) ks
      → Succeeds (try_kinds lib floats policy make base current ks h)
  unfolding try_kinds try_kind
  try_kinds_total make base current [] h admitted = (h, refl)
  try_kinds_total make base current (k ∷ ks) h admitted =
      let (c, made) = (encode_candidate_total k base current policy.smart_delta).1 admitted.0 in
      let (h', e) =
        try_compressed_total (make c.payload) k
          (weigh_delta lib floats policy (make c.payload) k h) in
      then_stage_total _ (λ h'. try_kinds lib floats policy make base current ks h')
        (rw (made, try_kind) (h', e)) (λ h'. try_kinds_total make base current ks h' admitted.1)

  hunt_packet_total :
      (sequence schema : ℕ) (o : Option (List ℕ)) (current : List ℕ) (h : Hunt)
      → Succeeds (hunt_packet lib floats policy sequence schema o current h)
  unfolding hunt_packet
  hunt_packet_total sequence schema none current h = try_first_total current h
  hunt_packet_total sequence schema (some base) current h =
      then_stage_total _ _
        (try_kinds_total _ base current (shortlist floats h.advisor (analyze base current)) _
          (shortlist-IsAdmitted floats h.advisor base current))
        (λ h'. (_, refl))

-- The encoder `e'` after `e` has sent the state `current`.
pub record HasSent (e e' : FastByteStateEncoder) (current : List ℕ) : Type 0 where
  pub advanced : e'.sequence ≡ e.sequence + 1
  pub held : e'.previous ≡ some current
  pub schema_kept : e'.schema_hash ≡ e.schema_hash
  pub policy_kept : e'.policy ≡ e.policy

-- As long as a sequence is left and compression does not fail, the fast encoder's `encode` returns
-- a packet, for every policy, every advisor, every previous state and every current one: no kind of
-- the short list is refused for the lengths of the states. The encoder then holds the current state
-- at the next sequence, with its schema and its policy.
pub fast_encode_total :
    (lib : Libraries) (floats : Floats) (e : FastByteStateEncoder) (current : List ℕ)
    → Compresses lib
    → e.sequence < u64_max
    → (e' : FastByteStateEncoder) × (p : Packet) × (encode lib floats e current ≡ (e', ok p))
      × HasSent e e' current
unfolding encode finish
fast_encode_total lib floats e current never room =
    let (h, found) =
      hunt_packet_total lib never floats e.policy (e.sequence + 1) e.schema_hash e.previous current
        (record {
          best = snapshot_packet (e.sequence + 1) (fnv1a64 current) e.schema_hash current;
          mode = V30EncodeMode.snapshot;
          considered = 1;
          profile = none;
          advisor = e.advisor;
        }) in
    rw (checked_add-some e.sequence 1 (omega arith), encode, found)
      (_, _, refl, record { advanced = refl; held = refl; schema_kept = refl; policy_kept = refl })
