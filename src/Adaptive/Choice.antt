-- ===== src/Adaptive/Choice.antt =====
-- What the policy selects carries the snapshot or the delta, and costs no more than the snapshot.
use delta_stream.Common.{
  ℕ, ◌≤◌, ◌≡◌, refl, sym, ap, subst, ◌⊎◌, inl, inr, Bool, true, false, ◌&&◌, Bool-cases, length,
  ltb, arith,
}
use delta_stream.Error.{ok, ok_injective, >>=-eq-ok}
use delta_stream.Libraries.{Libraries, IsLawful}
use delta_stream.Packet.{
  Packet, DecodeConfig, encoded_len, is_compressed, zstd_candidate, logical_payload_with_config,
}
use delta_stream.Packet.Compress.{
  IsCandidate, kept, packed, zstd_candidate-IsCandidate, zstd_candidate-logical,
}
use delta_stream.ByteSync.Total.{Compresses, zstd_candidate_total}
use delta_stream.Adaptive.{
  EncodeMode, EncodeDecision, AdaptivePolicy, Best, score, improve, compressed_form, select_initial,
  delta_allowed, best_of, select,
}

-- A packet with the header words of another, and with its payload.
pub record Carries (lib : Libraries) (config : DecodeConfig) (p q : Packet) : Type 0 where
  pub kind_eq : q.kind ≡ p.kind
  pub sequence_eq : q.sequence ≡ p.sequence
  pub base_sequence_eq : q.base_sequence ≡ p.base_sequence
  pub base_hash_eq : q.base_hash ≡ p.base_hash
  pub schema_hash_eq : q.schema_hash ≡ p.schema_hash
  pub shorter : length q.payload ≤ length p.payload
  pub logical_eq : logical_payload_with_config lib q config ≡ ok p.payload

-- A payload that the receiver accepts; every such packet is addressable.
pub record Plain (config : DecodeConfig) (p : Packet) : Type 0 where
  pub no_flags : p.flags ≡ 0
  pub fits : length p.payload ≤ config.max_decompressed_bytes
  pub short : length p.payload ≤ 0xffff_ffff

module _ (lib : Libraries) (law : IsLawful lib) (config : DecodeConfig) where
  Plain-Carries : (p : Packet) → Plain config p → Carries lib config p p
  unfolding logical_payload_with_config is_compressed
  Plain-Carries p h = record {
    kind_eq = refl;
    sequence_eq = refl;
    base_sequence_eq = refl;
    base_hash_eq = refl;
    schema_hash_eq = refl;
    shorter = omega arith;
    logical_eq = ground (arith, h.no_flags, h.fits);
  }

  candidate-Carries :
      (p : Packet) (level savings : ℕ) (q : Packet)
      → Plain config p
      → zstd_candidate lib p level savings ≡ ok q
      → Carries lib config p q
  candidate-Carries p level savings q h e =
      carried q (zstd_candidate-IsCandidate lib p level savings q (omega (arith, h.short)) e)
        (zstd_candidate-logical lib law p level savings q config h.no_flags (omega (arith, h.short))
          h.fits e).0
    where
      carried :
          (q : Packet)
          → IsCandidate lib p level q
          → logical_payload_with_config lib q config ≡ ok p.payload
          → Carries lib config p q
      carried q (kept eq) l = record {
        shorter = omega (arith, ap (λ x. length x.payload) eq);
        kind_eq = ap (λ x. x.kind) (sym eq);
        sequence_eq = ap (λ x. x.sequence) (sym eq);
        base_sequence_eq = ap (λ x. x.base_sequence) (sym eq);
        base_hash_eq = ap (λ x. x.base_hash) (sym eq);
        schema_hash_eq = ap (λ x. x.schema_hash) (sym eq);
        logical_eq = l;
      }
      carried q (packed bytes c shorter eq) l = record {
        shorter = omega (arith, shorter, ap (λ x. length x.payload) eq);
        kind_eq = ap (λ x. x.kind) (sym eq);
        sequence_eq = ap (λ x. x.sequence) (sym eq);
        base_sequence_eq = ap (λ x. x.base_sequence) (sym eq);
        base_hash_eq = ap (λ x. x.base_hash) (sym eq);
        schema_hash_eq = ap (λ x. x.schema_hash) (sym eq);
        logical_eq = l;
      }

  form-Carries :
      (self : AdaptivePolicy) (p q : Packet)
      → Plain config p
      → compressed_form lib self p ≡ ok q
      → Carries lib config p q
  unfolding compressed_form
  form-Carries self p q h e = elim (Bool-cases self.enable_zstd) [
    | inl on ↦
        candidate-Carries p self.zstd_level self.min_compression_savings_bytes q h (rw on at e)
    | inr off ↦ subst (Carries lib config p) (ok_injective p q (rw off at e)) (Plain-Carries p h)
  ]

  -- The best so far satisfies what every candidate that passes its test satisfies, and its score
  -- falls from step to step.
  record Holds (P : Packet → Type 0) (limit : ℕ) (b : Best) : Type 0 where
    good : P b.packet
    low : b.score ≤ limit
    own : encoded_len b.packet ≤ b.score

  encoded_len-score :
      (self : AdaptivePolicy) (p : Packet)
      → length p.payload ≤ 0xffff_ffff
      → encoded_len p ≤ score self p
  unfolding score encoded_len
  encoded_len-score self p h = omega arith

  improve-Holds :
      (P : Packet → Type 0) (limit : ℕ) (self : AdaptivePolicy) (test : Bool) (p : Packet)
      (mode : EncodeMode) (b : Best)
      → Holds P limit b
      → (test ≡ true → P p × (length p.payload ≤ 0xffff_ffff))
      → Holds P limit (improve self test p mode b)
  unfolding improve
  improve-Holds P limit self false p mode b h k = h
  improve-Holds P limit self true p mode b h k = elim (Bool-cases (ltb (score self p) b.score)) [
    | inr no_ ↦ rw no_ h
    | inl less ↦
        let (good, short) = k refl in
        rw less (record {
          good = good;
          low = ground (arith, h.low);
          own = encoded_len-score self p short;
        })
  ]

  Carries-shorter : (p q : Packet) → Carries lib config p q → encoded_len q ≤ encoded_len p
  unfolding encoded_len
  Carries-shorter p q c = omega (arith, c.shorter)

  -- What is sent for a snapshot and a delta.
  abbrev pub Sent : Packet → Packet → Packet → Type 0
  Sent snapshot delta q =
      Carries lib config snapshot q
      ⊎ ((length delta.payload ≤ length snapshot.payload) × Carries lib config delta q)

  score-Plain : (self : AdaptivePolicy) (p : Packet) → Plain config p → score self p ≡ encoded_len p
  unfolding score is_compressed encoded_len
  score-Plain self p h = ground (arith, h.no_flags, h.short)

  allowed-Plain :
      (ratio : ℕ → ℕ → ℕ → Bool) (self : AdaptivePolicy) (s d : Packet)
      → Plain config s
      → d.flags ≡ 0
      → delta_allowed ratio self (encoded_len s) (encoded_len d) ≡ true
      → (length d.payload ≤ length s.payload) × Plain config d
  unfolding delta_allowed encoded_len
  allowed-Plain ratio self s d h f a =
      let less : length d.payload ≤ length s.payload = ground (arith, h.short) in
      (less, record { no_flags = f; fits = omega (arith, h.fits); short = omega (arith, h.short) })

  pub select_initial-Carries :
      (self : AdaptivePolicy) (p q : Packet) (decision : EncodeDecision)
      → Plain config p
      → select_initial lib self p ≡ ok (q, decision)
      → Carries lib config p q × (encoded_len q ≤ encoded_len p)
  unfolding select_initial
  select_initial-Carries self p q decision h e =
      let (c, made, rest) = >>=-eq-ok (compressed_form lib self p) _ e in
      let carries = form-Carries self p c h made in
      elim (Bool-cases
        (self.enable_zstd && (is_compressed c && ltb (score self c) (score self p)))) [
          | inl pick ↦
              let eq : c ≡ q = ap (λ r. r.0) (ok_injective _ _ (rw pick at rest)) in
              subst (λ x. Carries lib config p x × (encoded_len x ≤ encoded_len p)) eq
                (carries, Carries-shorter p c carries)
          | inr keep ↦
              let eq : p ≡ q = ap (λ r. r.0) (ok_injective _ _ (rw keep at rest)) in
              subst (λ x. Carries lib config p x × (encoded_len x ≤ encoded_len p)) eq
                (Plain-Carries p h, omega arith)
        ]

  pub select-Carries :
      (ratio : ℕ → ℕ → ℕ → Bool) (self : AdaptivePolicy) (s d q : Packet)
      (decision : EncodeDecision)
      → Plain config s
      → d.flags ≡ 0
      → select lib ratio self s d ≡ ok (q, decision)
      → Sent s d q × (encoded_len q ≤ encoded_len s)
  unfolding select best_of
  select-Carries ratio self s d q decision h f e =
      let (sz, made_s, e') = >>=-eq-ok (compressed_form lib self s) _ e in
      let (dz, made_d, e'') = >>=-eq-ok (compressed_form lib self d) _ e' in
      let all = holds sz dz made_s made_d in
      let eq : (best_of ratio self s d sz dz).packet ≡ q = ap (λ r. r.0) (ok_injective _ _ e'') in
      subst (λ x. Sent s d x × (encoded_len x ≤ encoded_len s)) eq
        (all.good, omega (arith, all.own, all.low, score-Plain self s h))
    where
      holds :
          (sz dz : Packet)
          → compressed_form lib self s ≡ ok sz
          → compressed_form lib self d ≡ ok dz
          → Holds (Sent s d) (score self s) (best_of ratio self s d sz dz)
      holds sz dz made_s made_d =
          let cs = form-Carries self s sz h made_s in
          let allowed = allowed-Plain ratio self s d h f in
          improve-Holds (Sent s d) (score self s) self _ dz EncodeMode.delta_zstd _
            (improve-Holds (Sent s d) (score self s) self _ d EncodeMode.delta _
              (improve-Holds (Sent s d) (score self s) self _ sz EncodeMode.snapshot_zstd _
                (record {
                  good = inl (Plain-Carries s h);
                  low = omega arith;
                  own = encoded_len-score self s h.short;
                })
                (λ t. (inl cs, omega (arith, cs.shorter, h.short))))
              (λ t.
                let (less, plain) = allowed t in (inr (less, Plain-Carries d plain), plain.short)))
            (λ t.
              let (less, plain) = allowed (ground (arith, t)) in
              let cd = form-Carries self d dz plain made_d in
              (inr (less, cd), omega (arith, cd.shorter, plain.short)))

-- The policy selects a packet whenever compression does not fail.
module _ (lib : Libraries) (never : Compresses lib) where
  compressed_form_total :
      (self : AdaptivePolicy) (p : Packet) → (q : Packet) × (compressed_form lib self p ≡ ok q)
  unfolding compressed_form
  compressed_form_total self p = elim (Bool-cases self.enable_zstd) [
    | inl on ↦
        let (q, e) =
          zstd_candidate_total lib never p self.zstd_level self.min_compression_savings_bytes in
        (q, rw on e)
    | inr off ↦ (p, rw off refl)
  ]

  pub select_initial_total :
      (self : AdaptivePolicy) (p : Packet)
      → (q : Packet) × (decision : EncodeDecision) × (select_initial lib self p ≡ ok (q, decision))
  unfolding select_initial
  select_initial_total self p =
      let (c, e) = compressed_form_total self p in
      elim (Bool-cases
        (self.enable_zstd && (is_compressed c && ltb (score self c) (score self p)))) [
          | inl pick ↦ rw (e, pick) (_, _, refl)
          | inr keep ↦ rw (e, keep) (_, _, refl)
        ]

  pub select_total :
      (ratio : ℕ → ℕ → ℕ → Bool) (self : AdaptivePolicy) (s d : Packet)
      → (q : Packet) × (decision : EncodeDecision) × (select lib ratio self s d ≡ ok (q, decision))
  unfolding select
  select_total ratio self s d =
      let (sz, e) = compressed_form_total self s in
      let (dz, e') = compressed_form_total self d in rw (e, e') (_, _, refl)
