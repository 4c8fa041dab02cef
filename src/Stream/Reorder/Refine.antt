-- ===== src/Stream/Reorder/Refine.antt =====
-- The reorder decoder is the plain decoder on some order of its packets.
use delta_stream.Common.{
  ℕ, ◌-◌, ◌≤◌, ◌≡◌, ◌⊎◌, refl, sym, subst, inl, inr, ◌&&◌, Bool-cases, List, [], ◌∷◌, Option, none,
  some, length, ltb, leb, All, arith,
}
use delta_stream.Error.{Result, ok, err}
use delta_stream.Libraries.{Libraries}
use delta_stream.Packet.{Packet, PacketKind}
use delta_stream.Stream.{StateCodec}
use delta_stream.Stream.Decoder as Plain
use delta_stream.Stream.Decoder.{Decoder, ApplyResult, apply_packet}
use delta_stream.Stream.Invariant.{IsDecoder, apply_packet-IsDecoder}
use delta_stream.Stream.Reorder.{
  ReorderApplyResult, applied, buffered, need_recovery, duplicate, Pending, ReorderDecoder,
  or_insert, Drained, stopped, recover, failed, drain, answer, apply_now, apply_ahead, apply_kind,
  apply,
}
use delta_stream.Stream.Reorder.Loop.{IsHeld, IsDry, EndsDry, run, drain-Runs, length-or_insert}

-- Where the answer is that packets were applied, nothing waits that could follow.
abbrev pub DryAnswer : {T : Type 0} → ReorderDecoder T → Result (ReorderApplyResult T) → Type 0
DryAnswer r (ok (applied m s n)) = IsDry r.decoder.sequence r.pending
DryAnswer r (ok (buffered m)) = Unit
DryAnswer r (ok (need_recovery l q)) = Unit
DryAnswer r (ok (duplicate m)) = Unit
DryAnswer r (err e) = Unit

module _ {T : Type 0} (codec : StateCodec T) (lib : Libraries) where
  -- How a step of the reorder decoder relates to the plain one.
  pub record Refines (r : ReorderDecoder T) (p : Packet)
      (out : ReorderDecoder T × Result (ReorderApplyResult T)) : Type 0 where
    pub order : List Packet
    pub from_pending : All (λ q. (q ≡ p) ⊎ IsHeld r.pending q) order
    pub same : out.0.decoder ≡ run codec lib r.decoder order
    pub bounded : length out.0.pending ≤ r.max_pending
    pub limit : out.0.max_pending ≡ r.max_pending
    pub dry : DryAnswer out.0 out.1

  held :
      (r : ReorderDecoder T) (p : Packet) (qs : List Packet)
      → All (IsHeld r.pending) qs
      → All (λ q. (q ≡ p) ⊎ IsHeld r.pending q) qs
  held r p [] h = tt
  held r p (q ∷ qs) h = (inr h.0, held r p qs h.1)

  stopped-DryAnswer :
      (r : ReorderDecoder T) (m : ℕ) (o : Option ℕ) (s : T) (n : ℕ)
      → IsDry r.decoder.sequence r.pending
      → DryAnswer r (answer codec lib m o (stopped s n))
  unfolding answer
  stopped-DryAnswer r m none s n h = h
  stopped-DryAnswer r m (some local) s n h = h

  answer-DryAnswer :
      (r : ReorderDecoder T) (m : ℕ) (out : Decoder T × Pending × Drained T)
      → EndsDry out
      → DryAnswer
          (record r { decoder = out.0; pending = out.1 })
          (answer codec lib m out.0.sequence out.2)
  unfolding answer
  answer-DryAnswer r m (d, pending, stopped s n) h =
      stopped-DryAnswer (record r { decoder = d; pending = pending }) m d.sequence s n h
  answer-DryAnswer r m (d, pending, recover l q) h = tt
  answer-DryAnswer r m (d, pending, failed e) h = tt

  apply_now-Refines :
      (r : ReorderDecoder T) (p : Packet) (a : Result (ApplyResult T))
      → length r.pending ≤ r.max_pending
      → Refines r p (apply_now codec lib r ((apply_packet codec lib r.decoder p).0, a))
  unfolding apply_now run
  apply_now-Refines r p (err e) h = record {
    order = p ∷ [];
    from_pending = (inl refl, tt);
    same = refl;
    bounded = h;
    limit = refl;
    dry = tt;
  }
  apply_now-Refines r p (ok (Plain.duplicate m)) h = record {
    order = p ∷ [];
    from_pending = (inl refl, tt);
    same = refl;
    bounded = h;
    limit = refl;
    dry = tt;
  }
  apply_now-Refines r p (ok (Plain.need_snapshot l q)) h = record {
    order = p ∷ [];
    from_pending = (inl refl, tt);
    same = refl;
    bounded = h;
    limit = refl;
    dry = tt;
  }
  apply_now-Refines r p (ok (Plain.applied m s)) h =
      let runs =
        drain-Runs codec lib (length r.pending) (apply_packet codec lib r.decoder p).0 r.pending s 0
          (omega arith) in
      record {
        order = p ∷ runs.order;
        from_pending = (inl refl, held r p runs.order runs.from_pending);
        same = runs.same;
        bounded = omega (arith, runs.shrinks);
        limit = refl;
        dry =
            answer-DryAnswer r m
              (drain codec lib (length r.pending) (apply_packet codec lib r.decoder p).0 r.pending s
                0)
              runs.dry;
      }

  apply_ahead-Refines :
      (r : ReorderDecoder T) (p : Packet) (local : ℕ)
      → length r.pending ≤ r.max_pending
      → Refines r p (apply_ahead codec lib r p local)
  unfolding apply_ahead or_insert run
  apply_ahead-Refines r p local h =
      elim (Bool-cases
        (leb (p.base_sequence - local) r.max_gap && ltb (length r.pending) r.max_pending)) [
          | inr refused ↦ rw refused (record {
            order = [];
            from_pending = tt;
            same = refl;
            bounded = h;
            limit = refl;
            dry = tt;
          })
          | inl room ↦ rw room (record {
            order = [];
            from_pending = tt;
            same = refl;
            bounded = ground (arith, length-or_insert p.sequence p r.pending);
            limit = refl;
            dry = tt;
          })
        ]

  run-IsDecoder : (d : Decoder T) (ps : List Packet) → IsDecoder d → IsDecoder (run codec lib d ps)
  unfolding run
  run-IsDecoder d [] h = h
  run-IsDecoder d (p ∷ ps) h =
      run-IsDecoder (apply_packet codec lib d p).0 ps (apply_packet-IsDecoder codec lib d p h)

  apply_kind-Refines :
      (r : ReorderDecoder T) (p : Packet) (k : PacketKind) (o : Option ℕ)
      → length r.pending ≤ r.max_pending
      → Refines r p (apply_kind codec lib r p k o)
  unfolding apply_kind
  apply_kind-Refines r p PacketKind.snapshot o h =
      apply_now-Refines r p (apply_packet codec lib r.decoder p).1 h
  apply_kind-Refines r p PacketKind.delta none h =
      apply_now-Refines r p (apply_packet codec lib r.decoder p).1 h
  apply_kind-Refines r p PacketKind.delta (some local) h =
      elim (Bool-cases (ltb local p.base_sequence)) [
        | inl ahead ↦ rw ahead (apply_ahead-Refines r p local h)
        | inr now ↦ rw now (apply_now-Refines r p (apply_packet codec lib r.decoder p).1 h)
      ]

  -- If no more packets wait than allowed and the inner decoder satisfies its invariant, then after
  -- `apply` of any packet the inner decoder is the plain decoder run on some order of that packet
  -- and packets that waited, it satisfies its invariant, no more packets wait than allowed, and if
  -- the answer is that packets were applied, none waits at the sequence behind the decoder's.
  pub reorder-Refines :
      (r : ReorderDecoder T) (p : Packet)
      → length r.pending ≤ r.max_pending
      → IsDecoder r.decoder
      → Refines r p (apply codec lib r p) × IsDecoder (apply codec lib r p).0.decoder
  unfolding apply
  reorder-Refines r p h inv =
      let step = apply_kind-Refines r p p.kind r.decoder.sequence h in
      (step, subst IsDecoder (sym step.same) (run-IsDecoder r.decoder step.order inv))
