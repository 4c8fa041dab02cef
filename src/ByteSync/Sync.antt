-- ===== src/ByteSync/Sync.antt =====
-- An encoder and a decoder in step stay in step: what one encodes the other applies.
use delta_stream.Common.{
  ℕ, ◌+◌, ◌≤◌, ◌<◌, ◌≡◌, ◌⊎◌, refl, sym, ap, subst, ◌∙◌, false, inl, inr, List, Option, none, some,
  length, u64_max, checked_add-some, IsU64, ==-eq-true, leb-eq-false, arith,
}
use delta_stream.Error.{ok, err, err-ne-ok, ok_injective}
use delta_stream.Hash.{fnv1a64}
use delta_stream.Libraries.{Libraries, IsLawful}
use delta_stream.Packet.{
  Packet, PacketKind, logical_payload, max_logical_payload, encoded_len, snapshot_packet,
}
use delta_stream.SmartDelta.Dispatch as Smart
use delta_stream.ByteSync.Encoder.{ByteStateEncoder, Search, Step, search_packet, finish, encode}
use delta_stream.ByteSync.Decoder.{
  ByteStateDecoder, applied, is_stale, is_at, next, next_state, commit, apply,
}
use delta_stream.ByteSync.Search.{Delivers}
use delta_stream.ByteSync.Search.Whole.{CandidatesFit, search_packet-Delivers}

-- Both have seen nothing, or both hold the same state at the same sequence.
pub record InSync (e : ByteStateEncoder) (d : ByteStateDecoder) : Type 0 where
  pub schemas : e.schema_hash ≡ d.schema_hash
  pub states :
      ((e.previous ≡ none) × (d.sequence ≡ none))
      ⊎ ((base : List ℕ) × (e.previous ≡ some base)
          × (d.sequence ≡ some e.sequence)
          × (d.state ≡ some base))

-- The decoder after the packet was applied.
abbrev pub advanced : ByteStateDecoder → ℕ → List ℕ → ByteStateDecoder
advanced d sequence_ bytes = record d { sequence = some sequence_; state = some bytes }

not_stale :
    (o : Option ℕ) (local next_ : ℕ)
    → (o ≡ none) ⊎ ((o ≡ some local) × (local < next_))
    → is_stale o next_ ≡ false
unfolding is_stale
not_stale o local next_ (inl e) = rw e refl
not_stale o local next_ (inr (e, lt)) = rw e (leb-eq-false next_ local lt)

module _ (lib : Libraries) where
  -- Past the two early returns `apply` commits what the packet leads to.
  apply_fresh :
      (d : ByteStateDecoder) (p : Packet) (payload bytes : List ℕ)
      → p.schema_hash ≡ d.schema_hash
      → is_stale d.sequence p.sequence ≡ false
      → logical_payload lib p ≡ ok payload
      → next_state d p p.kind payload ≡ ok (next bytes)
      → apply lib d p ≡ (advanced d p.sequence bytes, ok (applied p.sequence bytes))
  unfolding apply commit
  apply_fresh d p payload bytes schema fresh logical leads =
      rw (==-eq-true p.schema_hash d.schema_hash schema, fresh, logical, leads) refl

  next_snapshot :
      (d : ByteStateDecoder) (p : Packet) (bytes : List ℕ)
      → p.kind ≡ PacketKind.snapshot
      → p.base_hash ≡ fnv1a64 bytes
      → next_state d p p.kind bytes ≡ ok (next bytes)
  unfolding next_state
  next_snapshot d p bytes k h = rw (k, ==-eq-true (fnv1a64 bytes) p.base_hash (sym h)) refl

  next_delta :
      (d : ByteStateDecoder) (p : Packet) (base payload bytes : List ℕ)
      → p.kind ≡ PacketKind.delta
      → d.sequence ≡ some p.base_sequence
      → d.state ≡ some base
      → p.base_hash ≡ fnv1a64 base
      → Smart.apply base payload ≡ ok bytes
      → next_state d p p.kind payload ≡ ok (next bytes)
  unfolding next_state is_at
  next_delta d p base payload bytes k at held h a =
      rw
        (
          k,
          at,
          ==-eq-true p.base_sequence p.base_sequence refl,
          held,
          ==-eq-true (fnv1a64 base) p.base_hash (sym h),
          a,
        )
        refl

  held_base :
      (e : ByteStateEncoder) (d : ByteStateDecoder) (base : List ℕ)
      → InSync e d
      → e.previous ≡ some base
      → (d.sequence ≡ some e.sequence) × (d.state ≡ some base)
  held_base e d base sync b = elim sync.states [
    | inl (a, n) ↦ absurd (cc)
    | inr (base', a, at, held) ↦ (at, cc)
  ]

  -- A packet that delivers is applied by every decoder in step with its sender.
  pub Delivers-apply :
      (e : ByteStateEncoder) (d : ByteStateDecoder) (current : List ℕ) (p : Packet)
      → InSync e d
      → Delivers lib (e.sequence + 1) e.schema_hash e.previous current p
      → apply lib d p ≡ (advanced d (e.sequence + 1) current, ok (applied (e.sequence + 1) current))
  Delivers-apply e d current p sync v =
      let schema : p.schema_hash ≡ d.schema_hash = v.schema_eq ∙ sync.schemas in
      let fresh : is_stale d.sequence p.sequence ≡ false =
        not_stale d.sequence e.sequence p.sequence (elim sync.states [
          | inl (a, b) ↦ inl b
          | inr (base, a, b, c) ↦ inr (b, omega (arith, v.sequence_eq))
        ]) in
      let got : apply lib d p ≡ (advanced d p.sequence current, ok (applied p.sequence current)) =
        elim v.way [
          | inl (k, h, l) ↦
              apply_fresh d p current current schema fresh l (next_snapshot d p current k h)
          | inr (base, payload, b, k, s, h, l, a) ↦
              let (at, held) = held_base e d base sync b in
              apply_fresh d p payload current schema fresh l
                (next_delta d p base payload current k (at ∙ ap some (omega (arith, s))) held h a)
        ] in
      got ∙ ap (λ s. (advanced d s current, ok (applied s current))) v.sequence_eq

-- What a finished search leaves in the encoder.
record Finished (self : ByteStateEncoder) (sequence : ℕ) (current : List ℕ) (e' : ByteStateEncoder)
    : Type 0 where
  sequence_eq : e'.sequence ≡ sequence
  previous_eq : e'.previous ≡ some current
  schema_eq : e'.schema_hash ≡ self.schema_hash
  policy_eq : e'.policy ≡ self.policy

finish_inv :
    (self : ByteStateEncoder) (sequence : ℕ) (current : List ℕ) (st : Step) (e' : ByteStateEncoder)
    (p : Packet)
    → finish self sequence current st ≡ (e', ok p)
    → (s : Search) × (st ≡ (s, ok tt)) × (s.best ≡ p) × Finished self sequence current e'
unfolding finish
finish_inv self sequence current (s, err x) e' p h = absurd (err-ne-ok x p (ap (λ r. r.1) h))
finish_inv self sequence current (s, ok u) e' p h = (
  s,
  refl,
  ok_injective s.best p (ap (λ r. r.1) h),
  record {
    sequence_eq = sym (ap (λ r. r.0.sequence) h);
    previous_eq = sym (ap (λ r. r.0.previous) h);
    schema_eq = sym (ap (λ r. r.0.schema_hash) h);
    policy_eq = sym (ap (λ r. r.0.policy) h);
  },
)

abbrev found_by : Libraries → ByteStateEncoder → List ℕ → Step
found_by lib e current =
    search_packet lib e.policy (e.sequence + 1) e.schema_hash e.previous e.tuner current

encode_lem :
    (lib : Libraries) (e : ByteStateEncoder) (current : List ℕ)
    → e.sequence < u64_max
    → encode lib e current ≡ finish e (e.sequence + 1) current (found_by lib e current)
unfolding encode
encode_lem lib e current h = rw (checked_add-some e.sequence 1 (omega arith), encode) refl

-- Let an encoder and a decoder be in step: the same schema, and either neither has seen a state or
-- both hold the same state at the same sequence. If a sequence is left, the chunk size is a `u64`,
-- the state and the candidates fit 64 MiB, and `encode` returns a packet, then `apply` of that
-- packet yields exactly the encoded state at the next sequence, both sides are in step again, and
-- the packet is no larger than the plain snapshot packet. The zstd and CRC libraries are assumed
-- lawful.
pub apply-encode :
    (lib : Libraries) (law : IsLawful lib) (e e' : ByteStateEncoder) (d : ByteStateDecoder)
    (current : List ℕ) (p : Packet)
    → InSync e d
    → e.sequence < u64_max
    → IsU64 e.policy.smart_delta.chunk_size
    → length current ≤ max_logical_payload
    → CandidatesFit e.policy e.previous current
    → encode lib e current ≡ (e', ok p)
    → (apply lib d p ≡ (advanced d (e.sequence + 1) current, ok (applied (e.sequence + 1) current)))
      × InSync e' (advanced d (e.sequence + 1) current)
      × (encoded_len p
          ≤ encoded_len (snapshot_packet (e.sequence + 1) (fnv1a64 current) e.schema_hash current))
apply-encode lib law e e' d current p sync room size fits cands h =
    let (s, searched, best, f) =
      finish_inv e (e.sequence + 1) current (found_by lib e current) e' p
        (sym (encode_lem lib e current room) ∙ h) in
    let (v, small) =
      search_packet-Delivers lib law e.policy (e.sequence + 1) e.schema_hash e.previous current
        e.tuner s size fits cands searched in
    (
      Delivers-apply lib e d current p sync
          (subst (Delivers lib (e.sequence + 1) e.schema_hash e.previous current) best v),
      record {
        schemas = f.schema_eq ∙ sync.schemas;
        states = inr (current, f.previous_eq, ap some (sym f.sequence_eq), refl);
      },
      subst
          (λ q.
            encoded_len q
            ≤ encoded_len
                (snapshot_packet (e.sequence + 1) (fnv1a64 current) e.schema_hash current))
          best small,
    )
