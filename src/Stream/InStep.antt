-- ===== src/Stream/InStep.antt =====
-- An encoder and a decoder in step stay in step, and a recovery snapshot brings them in step again.
use delta_stream.Common.{
  ℕ, ◌+◌, ◌≤◌, ◌<◌, ◌≡◌, ◌⊎◌, refl, sym, ap, subst, ◌∙◌, Bool, inl, inr, List, Option, none, some,
  length, u64_max, saturating_add, arith,
}
use delta_stream.Error.{ok, >>=-ok}
use delta_stream.Hash.{fnv1a64}
use delta_stream.Libraries.{Libraries, IsLawful}
use delta_stream.Packet.{Packet, encoded_len, snapshot_packet, delta_packet}
use delta_stream.ByteSync.Total.{Compresses}
use delta_stream.Recovery.Window.{contains}
use delta_stream.Adaptive.{EncodeDecision, select}
use delta_stream.Adaptive.Choice.{
  Carries, Plain, Sent, select_initial-Carries, select-Carries, select_initial_total, select_total,
}
use delta_stream.Stream.{StateCodec}
use delta_stream.Stream.Law.{IsCodec, ExactFrom, Fits}
use delta_stream.Stream.Encoder as E
use delta_stream.Stream.Encoder.{Encoder, raw_snapshot, choose, encode, recovery_snapshot}
use delta_stream.Stream.Decoder.{Decoder, applied, is_behind, next, next_state, apply_packet}
use delta_stream.Stream.Invariant.{IsDecoder, advanced, advanced-IsDecoder}
use delta_stream.Stream.Commit.{
  state_hash_lem, raw_snapshot_lem, apply_fresh, fresh_lem, next_snapshot, next_delta,
}

-- Neither has a state, or both hold the same valid state at the same sequence.
pub record InStep {T : Type 0} (Valid : T → Type 0) (e : Encoder T) (d : Decoder T) : Type 0 where
  pub invariant : IsDecoder d
  pub states :
      ((e.last_state ≡ none) × (d.sequence ≡ none))
      ⊎ ((base : T) × Valid base
          × (e.last_state ≡ some base)
          × (d.sequence ≡ some e.sequence)
          × (d.state ≡ some base))

module _ {T : Type 0} (codec : StateCodec T) (lib : Libraries) where
  module _ {Valid : T → Type 0} {Exact : T → T → Type 0} (law : IsCodec codec Valid Exact) where
    -- The encoder after a packet was made.
    abbrev sent : Encoder T → T → EncodeDecision → Encoder T
    sent e s decision = record e {
      sequence = e.sequence + 1;
      last_state = some s;
      last_decision = some decision;
    }

    -- What a chosen packet does to a decoder in step.
    abbrev Reaches : Encoder T → Decoder T → T → Packet → Type 0
    Reaches e d s q =
        (q.schema_hash ≡ codec.schema_hash)
        × (q.sequence ≡ e.sequence + 1)
        × (next_state codec lib d q q.kind ≡ ok (next s))

    module _ (zlaw : IsLawful lib) (ratio : ℕ → ℕ → ℕ → Bool) where
      abbrev pub plain_snapshot : ℕ → List ℕ → Packet
      plain_snapshot n bytes = snapshot_packet n (fnv1a64 bytes) codec.schema_hash bytes

      by_snapshot :
          (e : Encoder T) (d : Decoder T) (s : T) (bytes : List ℕ) (q : Packet)
          → Valid s
          → codec.snapshot_bytes s ≡ ok bytes
          → length bytes ≤ 0xffff_ffff
          → Carries lib d.decode_config (plain_snapshot (e.sequence + 1) bytes) q
          → Reaches e d s q
      by_snapshot e d s bytes q v b short c = (
        c.schema_hash_eq,
        c.sequence_eq,
        next_snapshot codec lib law d (e.sequence + 1) q s bytes v b short c,
      )

      by_delta :
          (e : Encoder T) (d : Decoder T) (base s : T) (old delta bytes : List ℕ) (q : Packet)
          → Valid base
          → Valid s
          → Exact base s
          → codec.snapshot_bytes base ≡ ok old
          → codec.delta_bytes base s ≡ ok delta
          → length bytes ≤ 0xffff_ffff
          → d.sequence ≡ some e.sequence
          → d.state ≡ some base
          → Sent lib zlaw d.decode_config
              (plain_snapshot (e.sequence + 1) bytes)
              (delta_packet (e.sequence + 1) e.sequence (fnv1a64 old) codec.schema_hash delta)
              q
          → codec.snapshot_bytes s ≡ ok bytes
          → Reaches e d s q
      by_delta e d base s old delta bytes q vb vs x eo ed short at held (inl c) b =
          by_snapshot e d s bytes q vs b short c
      by_delta e d base s old delta bytes q vb vs x eo ed short at held (inr (less, c)) b = (
        c.schema_hash_eq,
        c.sequence_eq,
        next_delta codec lib law d (e.sequence + 1) e.sequence q base s old delta vb vs x eo ed
            (omega arith) at held c,
      )

      -- The packet that the encoder chooses.
      record Chosen (e : Encoder T) (d : Decoder T) (s : T) (bytes : List ℕ) (last : Option T)
          : Type 0 where
        packet : Packet
        decision : EncodeDecision
        chosen :
            choose codec lib ratio e.policy
              (e.sequence + 1)
              last
              s
              (plain_snapshot (e.sequence + 1) bytes)
            ≡ ok (packet, decision)
        reaches : Reaches e d s packet
        small : encoded_len packet ≤ encoded_len (plain_snapshot (e.sequence + 1) bytes)

      fitting :
          (e : Encoder T) (d : Decoder T) (s : T) (f : Fits codec d.decode_config s)
          → Plain d.decode_config (plain_snapshot (e.sequence + 1) f.bytes)
      fitting e d s f = record { no_flags = refl; fits = f.limit; short = f.short }

      choose_first :
          (never : Compresses lib) (e : Encoder T) (d : Decoder T) (s : T)
          (f : Fits codec d.decode_config s)
          → Valid s
          → Chosen e d s f.bytes none
      unfolding choose
      choose_first never e d s f v =
          let p = plain_snapshot (e.sequence + 1) f.bytes in
          let (q, decision, made) = select_initial_total lib never e.policy p in
          let (c, small) =
            select_initial-Carries lib zlaw d.decode_config e.policy p q decision (fitting e d s f)
              made in
          record {
            packet = q;
            decision = decision;
            chosen = made;
            reaches = by_snapshot e d s f.bytes q v f.bytes_eq f.short c;
            small = small;
          }

      choose_next :
          (never : Compresses lib) (e : Encoder T) (d : Decoder T) (base s : T)
          (f : Fits codec d.decode_config s)
          → Valid base
          → Valid s
          → Exact base s
          → d.sequence ≡ some e.sequence
          → d.state ≡ some base
          → Chosen e d s f.bytes (some base)
      unfolding choose
      choose_next never e d base s f vb vs x at held =
          let p = plain_snapshot (e.sequence + 1) f.bytes in
          let (old, eo) = law.encodes base vb in
          let (delta, ed) = law.differs base s vb vs in
          let pd = delta_packet (e.sequence + 1) e.sequence (fnv1a64 old) codec.schema_hash delta in
          let (q, decision, made) = select_total lib never ratio e.policy p pd in
          let (c, small) =
            select-Carries lib zlaw d.decode_config ratio e.policy p pd q decision (fitting e d s f)
              refl made in
          record {
            packet = q;
            decision = decision;
            chosen = >>=-ok _ (state_hash_lem codec lib base old eo) (
                >>=-ok _ ed (
                  ap
                    (λ m.
                      select lib ratio e.policy p
                        (delta_packet (e.sequence + 1) m (fnv1a64 old) codec.schema_hash delta))
                    (omega arith)
                  ∙ made));
            reaches =
                by_delta e d base s old delta f.bytes q vb vs x eo ed f.short at held c f.bytes_eq;
            small = small;
          }

      choose-InStep :
          (never : Compresses lib) (e : Encoder T) (d : Decoder T) (s : T)
          (f : Fits codec d.decode_config s)
          → InStep Valid e d
          → Valid s
          → ExactFrom Exact e.last_state s
          → Chosen e d s f.bytes e.last_state
      choose-InStep never e d s f sync v x = elim sync.states [
        | inl (last, at) ↦ subst (Chosen e d s f.bytes) (sym last) (choose_first never e d s f v)
        | inr (base, vb, last, at, held) ↦
            subst (Chosen e d s f.bytes) (sym last) (
              choose_next never e d base s f vb v (subst (λ o. ExactFrom Exact o s) last x) at held)
      ]

      encode-sent :
          (e : Encoder T) (d : Decoder T) (s : T) (f : Fits codec d.decode_config s)
          → e.sequence < u64_max
          → (c : Chosen e d s f.bytes e.last_state)
          → encode codec lib ratio e s ≡ (sent e s c.decision, ok c.packet)
      unfolding encode E.commit
      encode-sent e d s f room c =
          let up : saturating_add e.sequence 1 ≡ e.sequence + 1 = omega arith in
          rw (up, raw_snapshot_lem codec lib ratio (e.sequence + 1) s f.bytes f.bytes_eq, c.chosen)
            refl

      -- Let an encoder and a decoder be in step: neither has a state, or both hold the same valid
      -- state at the same sequence. If a sequence is left, the new state is valid and the codec's
      -- delta tells it from the old one, its snapshot fits the decoder's limit and 32 bits, and
      -- compression does not fail, then `encode` returns a packet, `apply_packet` of it yields
      -- exactly the new state at the next sequence, both sides are in step again, and the packet is
      -- no larger than the plain snapshot. The libraries and the codec are assumed lawful.
      pub apply_packet-encode :
          (never : Compresses lib) (e : Encoder T) (d : Decoder T) (s : T)
          (f : Fits codec d.decode_config s)
          → InStep Valid e d
          → e.sequence < u64_max
          → Valid s
          → ExactFrom Exact e.last_state s
          → (e' : Encoder T) × (p : Packet) × (encode codec lib ratio e s ≡ (e', ok p))
            × (apply_packet codec lib d p
                ≡ (advanced d (e.sequence + 1) s, ok (applied (e.sequence + 1) s)))
            × InStep Valid e' (advanced d (e.sequence + 1) s)
            × (encoded_len p ≤ encoded_len (plain_snapshot (e.sequence + 1) f.bytes))
      apply_packet-encode never e d s f sync room v x =
          let c = choose-InStep never e d s f sync v x in
          let (schema, at, leads) = c.reaches in
          let (unseen, fresh) =
            fresh_lem codec lib d (e.sequence + 1) sync.invariant (elim sync.states [
              | inl (last, n) ↦ inl n
              | inr (base, vb, last, n, held) ↦ inr (e.sequence, n, omega arith)
            ]) in
          (
            sent e s c.decision,
            c.packet,
            encode-sent e d s f room c,
            apply_fresh codec lib d c.packet s schema (ap (contains d.replay) at ∙ unseen)
                  (ap (is_behind d.sequence) at ∙ fresh) leads
                ∙ ap (λ n. (advanced d n s, ok (applied n s))) at,
            record {
              invariant = advanced-IsDecoder d (e.sequence + 1) s sync.invariant fresh;
              states = inr (s, v, refl, refl, refl);
            },
            c.small,
          )

      -- Let the encoder hold a valid state and the decoder satisfy its invariant and be behind:
      -- without a sequence, or at a lower one, with whatever state. If the snapshot fits the
      -- decoder's limit and 32 bits and compression does not fail, then `recovery_snapshot` of the
      -- encoder's state returns a packet, `apply_packet` of it yields that state at the encoder's
      -- sequence, and the two are in step. The libraries and the codec are assumed lawful.
      pub apply_packet-recovery_snapshot :
          (never : Compresses lib) (e : Encoder T) (d : Decoder T) (s : T)
          (f : Fits codec d.decode_config s)
          → IsDecoder d
          → (d.sequence ≡ none) ⊎ ((local : ℕ) × (d.sequence ≡ some local) × (local < e.sequence))
          → e.last_state ≡ some s
          → Valid s
          → (p : Packet) × (recovery_snapshot codec lib ratio e s ≡ ok p)
            × (apply_packet codec lib d p ≡ (advanced d e.sequence s, ok (applied e.sequence s)))
            × InStep Valid e (advanced d e.sequence s)
      unfolding recovery_snapshot
      apply_packet-recovery_snapshot never e d s f h behind last v =
          let p = plain_snapshot e.sequence f.bytes in
          let (q, decision, made) = select_initial_total lib never e.policy p in
          let plain : Plain d.decode_config p = record {
            no_flags = refl;
            fits = f.limit;
            short = f.short;
          } in
          let (c, small) =
            select_initial-Carries lib zlaw d.decode_config e.policy p q decision plain made in
          let (unseen, fresh) = fresh_lem codec lib d e.sequence h behind in
          (
            q,
            >>=-ok _ (raw_snapshot_lem codec lib ratio e.sequence s f.bytes f.bytes_eq)
                (>>=-ok _ made refl),
            apply_fresh codec lib d q s c.schema_hash_eq
                  (ap (contains d.replay) c.sequence_eq ∙ unseen)
                  (ap (is_behind d.sequence) c.sequence_eq ∙ fresh)
                  (next_snapshot codec lib law d e.sequence q s f.bytes v f.bytes_eq f.short c)
                ∙ ap (λ n. (advanced d n s, ok (applied n s))) c.sequence_eq,
            record {
              invariant = advanced-IsDecoder d e.sequence s h fresh;
              states = inr (s, v, last, refl, refl);
            },
          )
