-- ===== src/Stream/Encoder.antt =====
-- `Encoder` and `GenericEncoder` of src/sync.rs.
use delta_stream.Common.{ℕ, ◌-◌, Bool, Option, none, some, saturating_add}
use delta_stream.Error.{Result, ok, err, ◌>>=◌}
use delta_stream.Libraries.{Libraries}
use delta_stream.Packet.{Packet, snapshot_packet, delta_packet}
use delta_stream.Adaptive.{AdaptivePolicy, EncodeDecision, select_initial, select}
use delta_stream.Stream.{StateCodec, state_hash}

pub record Encoder (T : Type 0) : Type 0 where
  pub sequence : ℕ
  pub last_state : Option T
  pub policy : AdaptivePolicy
  pub last_decision : Option EncodeDecision

unfoldable pub with_policy : {T : Type 0} → AdaptivePolicy → Encoder T
with_policy policy_ = record {
  sequence = 0;
  last_state = none;
  policy = policy_;
  last_decision = none;
}

-- What `encode` leaves behind: on an error the sequence has moved on already.
unfoldable pub commit :
    {T : Type 0} → Encoder T → T → Result (Packet × EncodeDecision) → Encoder T × Result Packet
commit self state (err e) = (self, err e)
commit self state (ok (packet, decision)) =
    (record self { last_state = some state; last_decision = some decision }, ok packet)

module _ {T : Type 0} (codec : StateCodec T) (lib : Libraries)
    (ratio_at_most : ℕ → ℕ → ℕ → Bool) where
  unfoldable pub raw_snapshot : ℕ → T → Result Packet
  unfolding state_hash
  raw_snapshot sequence_ state = do
    hash ← state_hash codec state
    bytes ← codec.snapshot_bytes state
    ok (snapshot_packet sequence_ hash codec.schema_hash bytes)

  -- The match on `last_state`.
  unfoldable pub choose :
      AdaptivePolicy → ℕ → Option T → T → Packet → Result (Packet × EncodeDecision)
  unfolding state_hash
  choose policy_ sequence_ none state packet = select_initial lib policy_ packet
  choose policy_ sequence_ (some previous) state packet = do
    hash ← state_hash codec previous
    bytes ← codec.delta_bytes previous state
    select lib ratio_at_most policy_ packet
        (delta_packet sequence_ (sequence_ - 1) hash codec.schema_hash bytes)

  unfoldable pub encode : Encoder T → T → Encoder T × Result Packet
  unfolding commit raw_snapshot choose
  encode self state =
      let moved : Encoder T = record self { sequence = saturating_add self.sequence 1 } in
      commit moved state (
        raw_snapshot moved.sequence state >>= λ packet.
        choose moved.policy moved.sequence moved.last_state state packet)

  -- `Encoder::force_snapshot`: the state is kept before anything can fail.
  unfoldable pub force_snapshot : Encoder T → T → Encoder T × Result Packet
  unfolding commit raw_snapshot
  force_snapshot self state =
      let moved : Encoder T = record self {
        sequence = saturating_add self.sequence 1;
        last_state = some state;
      } in
      commit moved state
        (raw_snapshot moved.sequence state >>= λ packet. select_initial lib moved.policy packet)

  -- `GenericEncoder::force_snapshot`: the state is kept once it has been serialised.
  unfoldable pub generic_force_snapshot : Encoder T → T → Encoder T × Result Packet
  unfolding commit raw_snapshot
  generic_force_snapshot self state =
      let moved : Encoder T = record self { sequence = saturating_add self.sequence 1 } in
      elim (raw_snapshot moved.sequence state) [
        | err e ↦ (moved, err e)
        | ok packet ↦
            commit (record moved { last_state = some state }) state
              (select_initial lib moved.policy packet)
      ]

  unfoldable pub recovery_snapshot : Encoder T → T → Result Packet
  unfolding raw_snapshot
  recovery_snapshot self state = do
    packet ← raw_snapshot self.sequence state
    chosen ← select_initial lib self.policy packet
    ok chosen.0
