-- ===== src/ByteSync/Safety.antt =====
-- The decoder changes its state only for a packet that is fresh, of its schema, and verified.
use delta_stream.Common.{
  ℕ, ◌<◌, ◌≡◌, ◌⊎◌, refl, sym, ap, ◌∙◌, true, false, inl, inr, Bool-cases, Option-cases, ==_iff,
  ◌==◌, List, Option, none, some, arith,
}
use delta_stream.Error.{Result, ok, err, Result-cases}
use delta_stream.Hash.{fnv1a64}
use delta_stream.Libraries.{Libraries}
use delta_stream.Packet.{Packet, PacketKind, logical_payload}
use delta_stream.SmartDelta.Dispatch as Smart
use delta_stream.ByteSync.Decoder.{
  ByteStateDecoder, applied, is_stale, is_at, Next, next, recover, next_state, commit, apply,
}
use delta_stream.ByteSync.Sync.{advanced}

-- How a verified packet leads from the decoder's state to `bytes`.
pub data Leads (d : ByteStateDecoder) (p : Packet) (payload : List ℕ) : List ℕ → Type 0 where
  by_snapshot :
      {bytes : List ℕ}
      → p.kind ≡ PacketKind.snapshot
      → fnv1a64 bytes ≡ p.base_hash
      → payload ≡ bytes
      → Leads d p payload bytes
  by_delta :
      {bytes : List ℕ} (base : List ℕ)
      → p.kind ≡ PacketKind.delta
      → d.sequence ≡ some p.base_sequence
      → d.state ≡ some base
      → fnv1a64 base ≡ p.base_hash
      → Smart.apply base payload ≡ ok bytes
      → Leads d p payload bytes

-- Every local sequence lies below the packet's.
abbrev pub Fresh : Option ℕ → ℕ → Type 0
Fresh none sequence = Unit
Fresh (some local) sequence = local < sequence

pub record Advances (lib : Libraries) (d : ByteStateDecoder) (p : Packet) (bytes : List ℕ)
    : Type 0 where
  pub same_schema : p.schema_hash ≡ d.schema_hash
  pub fresh : Fresh d.sequence p.sequence
  pub payload : List ℕ
  pub decoded : logical_payload lib p ≡ ok payload
  pub leads : Leads d p payload bytes
  pub result : apply lib d p ≡ (advanced d p.sequence bytes, ok (applied p.sequence bytes))

fresh_lem : (o : Option ℕ) (n : ℕ) → is_stale o n ≡ false → Fresh o n
unfolding is_stale
fresh_lem none n h = tt
fresh_lem (some local) n h = ground arith

is_at_lem : (o : Option ℕ) (n : ℕ) → is_at o n ≡ true → o ≡ some n
unfolding is_at
is_at_lem none n h = cc
is_at_lem (some local) n h = ap some ((==_iff local n).0 h)

next_state-Leads :
    (d : ByteStateDecoder) (p : Packet) (k : PacketKind) (payload bytes : List ℕ)
    → p.kind ≡ k
    → next_state d p k payload ≡ ok (next bytes)
    → Leads d p payload bytes
unfolding next_state
next_state-Leads d p PacketKind.snapshot payload bytes e h =
    elim (Bool-cases (fnv1a64 payload == p.base_hash)) [
      | inl same ↦
          let eq : payload ≡ bytes = cc (rw same at h) in
          by_snapshot e (ap fnv1a64 (sym eq) ∙ (==_iff _ _).0 same) eq
      | inr differ ↦ absurd (cc (rw differ at h))
    ]
next_state-Leads d p PacketKind.delta payload bytes e h =
    elim (Bool-cases (is_at d.sequence p.base_sequence)) [
      | inr away ↦ absurd (cc (rw away at h))
      | inl here_ ↦ elim (Option-cases d.state) [
        | inl nothing ↦ absurd (cc (rw (here_, nothing) at h))
        | inr (base, held) ↦ elim (Bool-cases (fnv1a64 base == p.base_hash)) [
          | inr differ ↦ absurd (cc (rw (here_, held, differ) at h))
          | inl same ↦ elim (Result-cases (Smart.apply base payload)) [
            | inr (x, failed) ↦ absurd (cc (rw (here_, held, same, failed) at h))
            | inl (out, made) ↦
                by_delta base e (is_at_lem d.sequence p.base_sequence here_) held
                  ((==_iff _ _).0 same) (made ∙ cc (rw (here_, held, same, made) at h))
          ]
        ]
      ]
    ]

module _ (lib : Libraries) (d : ByteStateDecoder) (p : Packet) where
  -- The decoder is as before, or it advances by a verified packet.
  abbrev Outcome : Type 0
  Outcome = ((apply lib d p).0 ≡ d) ⊎ ((bytes : List ℕ) × Advances lib d p bytes)

  committed :
      (payload : List ℕ) (r : Result Next)
      → (p.schema_hash == d.schema_hash) ≡ true
      → is_stale d.sequence p.sequence ≡ false
      → logical_payload lib p ≡ ok payload
      → next_state d p p.kind payload ≡ r
      → Outcome
  unfolding apply commit
  committed payload (err e) schema fresh l n = inl (rw (schema, fresh, l, n) refl)
  committed payload (ok recover) schema fresh l n = inl (rw (schema, fresh, l, n) refl)
  committed payload (ok (next bytes)) schema fresh l n = inr (
    bytes,
    record {
      same_schema = (==_iff _ _).0 schema;
      fresh = fresh_lem d.sequence p.sequence fresh;
      payload = payload;
      decoded = l;
      leads = next_state-Leads d p p.kind payload bytes refl n;
      result = rw (schema, fresh, l, n) refl;
    },
  )

  -- For every packet `apply` either leaves the decoder as it was, or the packet has the decoder's
  -- schema and a sequence above the local one, its logical payload decodes, it is a snapshot whose
  -- hash matches or a delta on the decoder's own sequence whose base hash matches the held state,
  -- and the decoder advances to exactly the packet's sequence and the state it leads to.
  pub apply_cases : Outcome
  unfolding apply commit
  apply_cases = elim (Bool-cases (p.schema_hash == d.schema_hash)) [
    | inr other ↦ inl (rw other refl)
    | inl schema ↦ elim (Bool-cases (is_stale d.sequence p.sequence)) [
      | inl stale ↦ inl (rw (schema, stale) refl)
      | inr fresh ↦ elim (Result-cases (logical_payload lib p)) [
        | inr (e, failed) ↦ inl (rw (schema, fresh, failed) refl)
        | inl (payload, l) ↦ committed payload (next_state d p p.kind payload) schema fresh l refl
      ]
    ]
  ]
