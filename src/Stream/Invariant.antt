-- ===== src/Stream/Invariant.antt =====
-- What holds of every decoder that packets and resets have reached.
use delta_stream.Common.{
  ℕ, ◌≤◌, ◌≡◌, refl, sym, subst, false, inl, inr, Bool-cases, List, [], ◌∷◌, Option, none, some,
  ◌==◌, arith,
}
use delta_stream.Error.{Result, ok, err}
use delta_stream.Libraries.{Libraries}
use delta_stream.Packet.{Packet, DecodeConfig}
use delta_stream.Recovery.Window.{
  new_window, contains, record_sequence, IsWindow, IsAtMost, record_sequence-IsWindow, IsAtMost,
  record_sequence-IsAtMost,
}
use delta_stream.Stream.{StateCodec}
use delta_stream.Stream.Decoder.{
  Decoder, new_decoder, reset, is_behind, Next, next, recover, commit, next_state, apply_packet,
}

-- No sequence was seen that lies above the local one.
abbrev pub Seen : Option ℕ → List ℕ → Type 0
Seen none seen = seen ≡ []
Seen (some local) seen = IsAtMost local seen

-- A sequence and a state, or neither.
abbrev pub Both : {T : Type 0} → Option ℕ → Option T → Type 0
Both none state = state ≡ none
Both {T} (some local) state = (s : T) × (state ≡ some s)

pub record IsDecoder {T : Type 0} (d : Decoder T) : Type 0 where
  pub window : IsWindow d.replay
  pub seen : Seen d.sequence d.replay.seen
  pub both : Both d.sequence d.state

-- The decoder after a packet was applied.
abbrev pub advanced : {T : Type 0} → Decoder T → ℕ → T → Decoder T
advanced d sequence_ state_ = record d {
  sequence = some sequence_;
  state = some state_;
  replay = record_sequence d.replay sequence_;
}

IsAtMost-up : (m n : ℕ) (l : List ℕ) → m ≤ n → IsAtMost m l → IsAtMost n l
IsAtMost-up m n [] h a = tt
IsAtMost-up m n (s ∷ ss) h a = (omega (arith, h, a.0), IsAtMost-up m n ss h a.1)

pub Seen-IsAtMost :
    (o : Option ℕ) (n : ℕ) (seen : List ℕ) → Seen o seen → is_behind o n ≡ false → IsAtMost n seen
unfolding is_behind
Seen-IsAtMost none n seen h b = subst (IsAtMost n) (sym h) tt
Seen-IsAtMost (some local) n seen h b = IsAtMost-up local n seen (ground arith) h

pub advanced-IsDecoder :
    {T : Type 0} (d : Decoder T) (sequence : ℕ) (state : T)
    → IsDecoder d
    → is_behind d.sequence sequence ≡ false
    → IsDecoder (advanced d sequence state)
advanced-IsDecoder d sequence state h b = record {
  window = (record_sequence-IsWindow d.replay sequence h.window).0;
  seen =
      record_sequence-IsAtMost sequence d.replay sequence
        (Seen-IsAtMost d.sequence sequence d.replay.seen h.seen b) (omega arith);
  both = (state, refl);
}

module _ {T : Type 0} (codec : StateCodec T) (lib : Libraries) where
  pub commit-IsDecoder :
      (d : Decoder T) (p : Packet) (r : Result (Next T))
      → IsDecoder d
      → is_behind d.sequence p.sequence ≡ false
      → IsDecoder (commit d p r).0
  unfolding commit
  commit-IsDecoder d p (err e) h b = h
  commit-IsDecoder d p (ok recover) h b = h
  commit-IsDecoder d p (ok (next s)) h b = advanced-IsDecoder d p.sequence s h b

  pub apply_packet-IsDecoder :
      (d : Decoder T) (p : Packet) → IsDecoder d → IsDecoder (apply_packet codec lib d p).0
  unfolding apply_packet
  apply_packet-IsDecoder d p h = elim (Bool-cases (p.schema_hash == codec.schema_hash)) [
    | inr other ↦ rw other h
    | inl same ↦ elim (Bool-cases (contains d.replay p.sequence)) [
      | inl known ↦ rw (same, known) h
      | inr new_ ↦ elim (Bool-cases (is_behind d.sequence p.sequence)) [
        | inl old ↦ rw (same, new_, old) h
        | inr fresh ↦
            rw (same, new_, fresh) (commit-IsDecoder d p (next_state codec lib d p p.kind) h fresh)
      ]
    ]
  ]

  -- Any packets, in any order, and resets.
  pub data Reach (config : DecodeConfig) : Decoder T → Type 0 where
    start : Reach config (new_decoder config)
    receive :
        {d : Decoder T} (p : Packet) → Reach config d → Reach config (apply_packet codec lib d p).0
    forget : {d : Decoder T} → Reach config d → Reach config (reset d)

  new_decoder-IsDecoder : (config : DecodeConfig) → IsDecoder {T = T} (new_decoder config)
  unfolding new_decoder new_window
  new_decoder-IsDecoder config = record {
    window = record { positive = omega arith; bounded = omega arith; nodup = tt };
    seen = refl;
    both = refl;
  }

  reset-IsDecoder : (d : Decoder T) → IsDecoder d → IsDecoder (reset d)
  unfolding reset
  reset-IsDecoder d h = record {
    window = record { positive = h.window.positive; bounded = omega arith; nodup = tt };
    seen = refl;
    both = refl;
  }

  -- Whatever packets a decoder has received, in whatever order and however often it was reset, it
  -- holds a state exactly when it has a sequence, it has recorded no sequence above its own, and
  -- its replay window is within its capacity and free of duplicates.
  pub Reach-IsDecoder : (config : DecodeConfig) (d : Decoder T) → Reach config d → IsDecoder d
  Reach-IsDecoder config d start = new_decoder-IsDecoder config
  Reach-IsDecoder config d (receive {d = before} p r) =
      apply_packet-IsDecoder before p (Reach-IsDecoder config before r)
  Reach-IsDecoder config d (forget {d = before} r) =
      reset-IsDecoder before (Reach-IsDecoder config before r)
