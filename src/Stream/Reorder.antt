-- ===== src/Stream/Reorder.antt =====
-- src/reorder.rs: a decoder that keeps packets from the future until their turn comes.
pub mod Loop
pub mod Refine
use delta_stream.Common.{
  ℕ, zero, suc, ◌+◌, ◌-◌, max, Bool, true, false, ◌&&◌, List, [], ◌∷◌, Option, none, some, length,
  ltb, leb, ◌==◌, if◌then◌else◌, saturating_add,
}
use delta_stream.Error.{DeltaError, Result, ok, err}
use delta_stream.Libraries.{Libraries}
use delta_stream.Packet.{Packet, PacketKind, DecodeConfig}
use delta_stream.Stream.{StateCodec}
use delta_stream.Stream.Decoder as Plain
use delta_stream.Stream.Decoder.{Decoder, ApplyResult, new_decoder, apply_packet}

pub data ReorderApplyResult (T : Type 0) : Type 0 where
  applied : ℕ → T → ℕ → ReorderApplyResult T
  buffered : ℕ → ReorderApplyResult T
  need_recovery : Option ℕ → ℕ → ReorderApplyResult T
  duplicate : ℕ → ReorderApplyResult T

-- The `BTreeMap`, whose order nothing reads: only its keys, its length and single entries matter.
abbrev pub Pending : Type 0
Pending = List (ℕ × Packet)

pub record ReorderDecoder (T : Type 0) : Type 0 where
  pub decoder : Decoder T
  pub pending : Pending
  pub max_gap : ℕ
  pub max_pending : ℕ

unfoldable pub new_reorder : {T : Type 0} → DecodeConfig → ℕ → ℕ → ReorderDecoder T
new_reorder config max_gap_ max_pending_ = record {
  decoder = new_decoder config;
  pending = [];
  max_gap = max max_gap_ 1;
  max_pending = max max_pending_ 1;
}

unfoldable pub has_key : ℕ → Pending → Bool
has_key k [] = false
has_key k ((j, p) ∷ rest) = let later = has_key k rest in if j == k then true else later

-- `entry(sequence).or_insert(packet)`
unfoldable pub or_insert : ℕ → Packet → Pending → Pending
unfolding has_key
or_insert k packet pending_ = if has_key k pending_ then pending_ else (k, packet) ∷ pending_

unfoldable pub find : ℕ → Pending → Option Packet
find k [] = none
find k ((j, p) ∷ rest) = let later = find k rest in if j == k then some p else later

unfoldable pub without : ℕ → Pending → Pending
without k [] = []
without k ((j, p) ∷ rest) = let later = without k rest in if j == k then later else (j, p) ∷ later

-- What the loop that drains the packets leaves, and how it ends: it stops, or it returns early.
pub data Drained (T : Type 0) : Type 0 where
  stopped : T → ℕ → Drained T
  recover : Option ℕ → ℕ → Drained T
  failed : DeltaError → Drained T

abbrev pub Rest : Type 0 → Type 0
Rest T = Decoder T → Pending → T → ℕ → Decoder T × Pending × Drained T

-- The match of one round on what the decoder answers; `rest` is the loop's next round.
unfoldable pub after_apply :
    {T : Type 0}
    → Decoder T × Result (ApplyResult T)
    → Pending
    → T
    → ℕ
    → Rest T
    → Decoder T × Pending × Drained T
after_apply (d, err e) pending_ state n rest = (d, pending_, failed e)
after_apply (d, ok (Plain.applied sequence state')) pending_ state n rest =
    rest d pending_ state' (n + 1)
after_apply (d, ok (Plain.duplicate sequence)) pending_ state n rest = rest d pending_ state n
after_apply (d, ok (Plain.need_snapshot local required)) pending_ state n rest =
    (d, pending_, recover local required)

module _ {T : Type 0} (codec : StateCodec T) (lib : Libraries) where
  -- One round, with what `remove` found at the sequence behind the local one.
  unfoldable pub take_next :
      ℕ → Option Packet → Decoder T → Pending → T → ℕ → Rest T → Decoder T × Pending × Drained T
  unfolding after_apply
  take_next sequence_ none d pending_ state n rest = (d, pending_, stopped state n)
  take_next sequence_ (some next_) d pending_ state n rest =
      after_apply (apply_packet codec lib d next_) (without sequence_ pending_) state n rest

  unfoldable pub round :
      Option ℕ → Decoder T → Pending → T → ℕ → Rest T → Decoder T × Pending × Drained T
  unfolding take_next
  round none d pending_ state n rest = (d, pending_, stopped state n)
  round (some local) d pending_ state n rest =
      take_next (saturating_add local 1) (find (saturating_add local 1) pending_) d pending_ state n
        rest

  -- The loop `while let Some(local)`, on fuel: every round removes an entry.
  unfoldable pub drain : ℕ → Rest T
  unfolding round
  drain zero d pending_ state n = (d, pending_, stopped state n)
  drain (suc fuel) d pending_ state n = round d.sequence d pending_ state n (drain fuel)

  -- The answer behind the loop.
  unfoldable pub answer : ℕ → Option ℕ → Drained T → Result (ReorderApplyResult T)
  answer sequence_ none (stopped state n) = ok (applied sequence_ state n)
  answer sequence_ (some local) (stopped state n) = ok (applied local state n)
  answer sequence_ o (recover local required) = ok (need_recovery local required)
  answer sequence_ o (failed e) = err e

  -- The match on what the decoder answers to the packet itself.
  unfoldable pub apply_now :
      ReorderDecoder T
      → Decoder T × Result (ApplyResult T)
      → ReorderDecoder T × Result (ReorderApplyResult T)
  unfolding drain answer
  apply_now self (d, err e) = (record self { decoder = d }, err e)
  apply_now self (d, ok (Plain.duplicate sequence_)) =
      (record self { decoder = d }, ok (duplicate sequence_))
  apply_now self (d, ok (Plain.need_snapshot local required)) =
      (record self { decoder = d }, ok (need_recovery local required))
  apply_now self (d, ok (Plain.applied sequence_ state)) =
      let out = drain (length self.pending) d self.pending state 0 in
      (record self { decoder = out.0; pending = out.1 }, answer sequence_ out.0.sequence out.2)

  -- A delta whose base is ahead of the local sequence waits, or is refused.
  unfoldable pub apply_ahead :
      ReorderDecoder T → Packet → ℕ → ReorderDecoder T × Result (ReorderApplyResult T)
  unfolding or_insert
  apply_ahead self packet local =
      if leb (packet.base_sequence - local) self.max_gap
        && ltb (length self.pending) self.max_pending
      then (
        record self { pending = or_insert packet.sequence packet self.pending },
        ok (buffered packet.sequence),
      )
      else (self, ok (need_recovery (some local) packet.base_sequence))

  -- The tests before the decoder is asked.
  unfoldable pub apply_kind :
      ReorderDecoder T
      → Packet
      → PacketKind
      → Option ℕ
      → ReorderDecoder T × Result (ReorderApplyResult T)
  unfolding apply_now apply_ahead
  apply_kind self packet PacketKind.snapshot o =
      apply_now self (apply_packet codec lib self.decoder packet)
  apply_kind self packet PacketKind.delta none =
      apply_now self (apply_packet codec lib self.decoder packet)
  apply_kind self packet PacketKind.delta (some local) =
      if ltb local packet.base_sequence
      then apply_ahead self packet local
      else apply_now self (apply_packet codec lib self.decoder packet)

  unfoldable pub apply :
      ReorderDecoder T → Packet → ReorderDecoder T × Result (ReorderApplyResult T)
  unfolding apply_kind
  apply self packet = apply_kind self packet packet.kind self.decoder.sequence

unfoldable pub clear_pending : {T : Type 0} → ReorderDecoder T → ReorderDecoder T
clear_pending self = record self { pending = [] }

unfoldable pub reset_reorder : {T : Type 0} → ReorderDecoder T → ReorderDecoder T
reset_reorder self = record self { pending = []; decoder = Plain.reset self.decoder }
