-- ===== src/Stream/Commit.antt =====
-- What a decoder does with a fresh packet of an encoder in step with it.
use delta_stream.Common.{
  ℕ, ◌≤◌, ◌<◌, ◌≡◌, ◌⊎◌, refl, subst, Bool, false, inl, inr, List, [], none, some, length,
  ==-eq-true, ltb-eq-false, arith,
}
use delta_stream.Error.{Result, ok}
use delta_stream.Hash.{fnv1a64}
use delta_stream.Libraries.{Libraries}
use delta_stream.Packet.{
  Packet, snapshot_packet, delta_packet, logical_payload_with_config, is_compressed,
}
use delta_stream.Recovery.Window.{contains, contains-above}
use delta_stream.Adaptive.Choice.{Carries}
use delta_stream.Stream.{StateCodec, state_hash}
use delta_stream.Stream.Law.{IsCodec}
use delta_stream.Stream.Encoder.{raw_snapshot}
use delta_stream.Stream.Decoder as D
use delta_stream.Stream.Decoder.{
  Decoder, ApplyResult, applied, is_behind, is_at, Next, next, next_state, apply_packet,
}
use delta_stream.Stream.Invariant.{IsDecoder, Seen, advanced}

module _ {T : Type 0} (codec : StateCodec T) (lib : Libraries) where
  pub state_hash_lem :
      (s : T) (bytes : List ℕ)
      → codec.snapshot_bytes s ≡ ok bytes
      → state_hash codec s ≡ ok (fnv1a64 bytes)
  unfolding state_hash
  state_hash_lem s bytes e = rw e refl

  pub raw_snapshot_lem :
      (ratio : ℕ → ℕ → ℕ → Bool) (sequence : ℕ) (s : T) (bytes : List ℕ)
      → codec.snapshot_bytes s ≡ ok bytes
      → raw_snapshot codec lib ratio sequence s
        ≡ ok (snapshot_packet sequence (fnv1a64 bytes) codec.schema_hash bytes)
  unfolding raw_snapshot state_hash
  raw_snapshot_lem ratio sequence s bytes e = rw e refl

  -- Past the early returns `apply_packet` commits what the packet leads to.
  apply_commits :
      (d : Decoder T) (p : Packet) (n : Result (Next T)) (r : Decoder T × Result (ApplyResult T))
      → p.schema_hash ≡ codec.schema_hash
      → contains d.replay p.sequence ≡ false
      → is_behind d.sequence p.sequence ≡ false
      → next_state codec lib d p p.kind ≡ n
      → D.commit d p n ≡ r
      → apply_packet codec lib d p ≡ r
  unfolding apply_packet
  apply_commits d p n r schema unseen fresh leads done =
      rw (==-eq-true p.schema_hash codec.schema_hash schema, unseen, fresh, leads) done

  pub apply_fresh :
      (d : Decoder T) (p : Packet) (s : T)
      → p.schema_hash ≡ codec.schema_hash
      → contains d.replay p.sequence ≡ false
      → is_behind d.sequence p.sequence ≡ false
      → next_state codec lib d p p.kind ≡ ok (next s)
      → apply_packet codec lib d p ≡ (advanced d p.sequence s, ok (applied p.sequence s))
  unfolding D.commit
  apply_fresh d p s schema unseen fresh leads =
      apply_commits d p (ok (next s)) _ schema unseen fresh leads refl

  -- A sequence above the local one is neither seen nor behind.
  pub fresh_lem :
      (d : Decoder T) (n : ℕ)
      → IsDecoder d
      → (d.sequence ≡ none) ⊎ ((local : ℕ) × (d.sequence ≡ some local) × (local < n))
      → (contains d.replay n ≡ false) × (is_behind d.sequence n ≡ false)
  unfolding is_behind contains
  fresh_lem d n h (inl e) =
      let seen : d.replay.seen ≡ [] = subst (λ o. Seen o d.replay.seen) e h.seen in
      (rw seen refl, rw e refl)
  fresh_lem d n h (inr (local, e, lt)) = (
    contains-above d.replay local n (subst (λ o. Seen o d.replay.seen) e h.seen) lt,
    rw e (ltb-eq-false n local (omega arith)),
  )

  module _ {Valid : T → Type 0} {Exact : T → T → Type 0} (law : IsCodec codec Valid Exact) where
    pub next_snapshot :
        (d : Decoder T) (n : ℕ) (q : Packet) (s : T) (bytes : List ℕ)
        → Valid s
        → codec.snapshot_bytes s ≡ ok bytes
        → length bytes ≤ 0xffff_ffff
        → Carries lib d.decode_config (snapshot_packet n (fnv1a64 bytes) codec.schema_hash bytes) q
        → next_state codec lib d q q.kind ≡ ok (next s)
    unfolding next_state logical_payload_with_config is_compressed
    next_snapshot d n q s bytes v e short c =
        rw (c.kind_eq, c.logical_eq, c.base_hash_eq, law.opens s bytes v e (omega arith)) refl

    pub next_delta :
        (d : Decoder T) (n m : ℕ) (q : Packet) (base s : T) (old bytes : List ℕ)
        → Valid base
        → Valid s
        → Exact base s
        → codec.snapshot_bytes base ≡ ok old
        → codec.delta_bytes base s ≡ ok bytes
        → length bytes ≤ 0xffff_ffff
        → d.sequence ≡ some m
        → d.state ≡ some base
        → Carries lib d.decode_config (delta_packet n m (fnv1a64 old) codec.schema_hash bytes) q
        → next_state codec lib d q q.kind ≡ ok (next s)
    unfolding next_state is_at logical_payload_with_config is_compressed
    next_delta d n m q base s old bytes vb vs x eo eb short at held c =
        rw
          (
            c.kind_eq,
            at,
            c.base_sequence_eq,
            ==-eq-true m m refl,
            held,
            state_hash_lem base old eo,
            c.base_hash_eq,
            ==-eq-true (fnv1a64 old) (fnv1a64 old) refl,
            c.logical_eq,
            law.applies base s bytes vb vs x eb (omega arith),
          )
          refl
