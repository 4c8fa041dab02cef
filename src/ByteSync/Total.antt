-- ===== src/ByteSync/Total.antt =====
-- The encoder returns a packet whenever compression does not fail and a sequence is left.
use delta_stream.Common.{
  ℕ, ◌+◌, ◌<◌, ◌≡◌, refl, ◌&&◌, ◌||◌, inl, inr, Bool-cases, List, [], ◌∷◌, Option, none, some,
  length, ltb, leb, u64_max, saturating_add, checked_add-some, arith,
}
use delta_stream.Error.{ok}
use delta_stream.Libraries.{Libraries}
use delta_stream.Packet.{Packet, is_compressed, zstd_candidate}
use delta_stream.SmartDelta.Kind.{SmartDeltaCandidate, SmartDeltaPolicy}
use delta_stream.SmartDelta.Tuner.{AdaptiveTuner, should_try_zstd}
use delta_stream.SmartDelta.Dispatch.{encode_candidates, candidate_payload}
use delta_stream.ByteSync.Encoder.{
  ByteEncodeMode, V25Policy, ByteStateEncoder, Search, Step, then_step, try_compressed, weigh_delta,
  try_candidates, try_deltas, search_packet, finish, encode,
}

-- Compression that never fails, as zstd's does when its output buffer can be allocated.
abbrev pub Compresses : Libraries → Type 0
Compresses lib =
    (level : ℕ) (bytes : List ℕ) → (packed : List ℕ) × (lib.compress level bytes ≡ inr packed)

encode_candidates_total :
    (previous current : List ℕ) (policy : SmartDeltaPolicy)
    → (cs : List SmartDeltaCandidate) × (encode_candidates previous current policy ≡ ok cs)
unfolding encode_candidates candidate_payload
encode_candidates_total previous current policy = (_, refl)

module _ (lib : Libraries) (never : Compresses lib) where
  pub zstd_candidate_total :
      (p : Packet) (level savings : ℕ) → (q : Packet) × (zstd_candidate lib p level savings ≡ ok q)
  unfolding zstd_candidate
  zstd_candidate_total p level savings =
      elim (Bool-cases (is_compressed p || ltb (length p.payload) 64)) [
        | inl skip ↦ (p, rw skip refl)
        | inr try ↦
            let (packed, made) = never level p.payload in
            elim (Bool-cases (leb (length p.payload) (saturating_add (length packed) savings))) [
              | inl poor ↦ rw (try, made, poor) (_, refl)
              | inr good ↦ rw (try, made, good) (_, refl)
            ]
      ]

module _ (lib : Libraries) (never : Compresses lib) (policy : V25Policy) where
  -- A step that did not fail.
  abbrev Succeeds : Step → Type 0
  Succeeds st = (s : Search) × (st ≡ (s, ok tt))

  try_compressed_total :
      (packet : Packet) (mode : ByteEncodeMode) (s : Search)
      → Succeeds (try_compressed lib policy packet mode s)
  unfolding try_compressed
  try_compressed_total packet mode s =
      elim (Bool-cases (policy.enable_zstd && should_try_zstd s.tuner (length packet.payload))) [
        | inr skip ↦ (s, rw skip refl)
        | inl try ↦
            let (q, made) =
              zstd_candidate_total lib never packet policy.zstd_level
                policy.min_compression_savings in
            rw (try, made) (_, refl)
      ]

  then_step_total :
      (st : Step) (rest : Search → Step)
      → Succeeds st
      → ((s : Search) → Succeeds (rest s))
      → Succeeds (then_step st rest)
  unfolding then_step
  then_step_total st rest (s, e) h = let (s', e') = h s in (s', rw e e')

  try_candidates_total :
      (make : List ℕ → Packet) (cs : List SmartDeltaCandidate) (s : Search)
      → Succeeds (try_candidates lib policy make cs s)
  unfolding try_candidates
  try_candidates_total make [] s = (s, refl)
  try_candidates_total make (c ∷ cs) s =
      then_step_total _ (λ s'. try_candidates lib policy make cs s')
        (try_compressed_total (make c.payload) (ByteEncodeMode.delta_zstd c.kind)
          (weigh_delta lib policy (make c.payload) c.kind s))
        (λ s'. try_candidates_total make cs s')

  try_deltas_total :
      (sequence schema : ℕ) (previous : Option (List ℕ)) (current : List ℕ) (s : Search)
      → Succeeds (try_deltas lib policy sequence schema previous current s)
  unfolding try_deltas
  try_deltas_total sequence schema none current s = (s, refl)
  try_deltas_total sequence schema (some base) current s =
      let (cs, made) = encode_candidates_total base current policy.smart_delta in
      let (s', e) = try_candidates_total _ cs s in rw (made, try_deltas) (s', e)

  search_packet_total :
      (sequence schema : ℕ) (previous : Option (List ℕ)) (tuner : AdaptiveTuner) (current : List ℕ)
      → Succeeds (search_packet lib policy sequence schema previous tuner current)
  unfolding search_packet
  search_packet_total sequence schema previous tuner current =
      then_step_total _ _ (try_compressed_total _ _ _)
        (λ s. try_deltas_total sequence schema previous current s)

-- The encoder `e'` after `e` has sent the state `current`.
pub record HasSent (e e' : ByteStateEncoder) (current : List ℕ) : Type 0 where
  pub advanced : e'.sequence ≡ e.sequence + 1
  pub held : e'.previous ≡ some current
  pub schema_kept : e'.schema_hash ≡ e.schema_hash
  pub policy_kept : e'.policy ≡ e.policy

-- As long as a sequence is left and compression does not fail, `encode` returns a packet, for every
-- policy, every previous state and every current one, and the encoder then holds the current state
-- at the next sequence, with its schema and its policy.
pub encode_total :
    (lib : Libraries) (e : ByteStateEncoder) (current : List ℕ)
    → Compresses lib
    → e.sequence < u64_max
    → (e' : ByteStateEncoder) × (p : Packet) × (encode lib e current ≡ (e', ok p))
      × HasSent e e' current
unfolding encode finish
encode_total lib e current never room =
    let (s, found) =
      search_packet_total lib never e.policy (e.sequence + 1) e.schema_hash e.previous e.tuner
        current in
    rw (checked_add-some e.sequence 1 (omega arith), encode, found)
      (_, _, refl, record { advanced = refl; held = refl; schema_kept = refl; policy_kept = refl })
