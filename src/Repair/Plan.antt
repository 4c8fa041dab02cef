-- ===== src/Repair/Plan.antt =====
-- src/recovery_v30.rs: the choice among a replay, a partial repair and a snapshot.
use delta_stream.Common.{
  ℕ, ◌≤◌, ◌<◌, ◌≡◌, refl, inl, inr, Bool-cases, List, Option, none, some, max, length, ltb,
  if◌then◌else◌, u64_max, isize_max, arith,
}
use delta_stream.Error.{Result, ok, ◌>>=◌}
use delta_stream.Packet.{Packet, encoded_len}
use delta_stream.Recovery.History.{RecoveryHistory, RecoveryPlan, replay, snapshot}
use delta_stream.Recovery.History as History
use delta_stream.Recovery.History.Bounds.{total_len}
use delta_stream.Recovery.History.Replay.{IsReplay, plan_cases}
use delta_stream.Repair.{PartialRepair, build, apply, payload_bytes}
use delta_stream.Repair.Apply.{NoCollision, apply-build}

pub data V30RecoveryPlan : Type 0 where
  replay_packets : List Packet → V30RecoveryPlan
  partial : PartialRepair → V30RecoveryPlan
  whole : Packet → V30RecoveryPlan

unfoldable pub estimated_payload_bytes : V30RecoveryPlan → ℕ
estimated_payload_bytes (replay_packets packets) = total_len packets
estimated_payload_bytes (partial repair) = payload_bytes repair
estimated_payload_bytes (whole packet) = encoded_len packet

-- The match on the history's plan.
unfoldable pub as_v30 : RecoveryPlan → V30RecoveryPlan
as_v30 (replay p) = replay_packets p
as_v30 (snapshot p) = whole p

-- `if let Some(receiver)`
unfoldable pub try_repair : Option (List ℕ) → List ℕ → ℕ → V30RecoveryPlan → V30RecoveryPlan
unfolding estimated_payload_bytes
try_repair none authoritative chunk_size best = best
try_repair (some receiver) authoritative chunk_size best =
    let repair = build receiver authoritative chunk_size in
    if ltb (payload_bytes repair) (estimated_payload_bytes best) then partial repair else best

unfoldable pub plan_recovery :
    RecoveryHistory → Option ℕ → Option (List ℕ) → List ℕ → Packet → ℕ → Result V30RecoveryPlan
unfolding as_v30 try_repair
plan_recovery history local_sequence receiver_state authoritative_state snapshot_ chunk_size = do
  history_plan ← History.plan history local_sequence snapshot_
  ok (try_repair receiver_state authoritative_state chunk_size (as_v30 history_plan))

-- A plan that brings the receiver to the authoritative state.
pub data Recovers (h : RecoveryHistory) (local : Option ℕ) (receiver : Option (List ℕ))
    (authoritative : List ℕ) (s : Packet) : V30RecoveryPlan → Type 0 where
  by_snapshot : {p : V30RecoveryPlan} → whole s ≡ p → Recovers h local receiver authoritative s p
  by_replay :
      {p : V30RecoveryPlan} (n : ℕ) (ps : List Packet)
      → local ≡ some n
      → IsReplay h n s ps
      → replay_packets ps ≡ p
      → Recovers h local receiver authoritative s p
  by_repair :
      {p : V30RecoveryPlan} (base : List ℕ) (repair : PartialRepair)
      → receiver ≡ some base
      → apply repair base ≡ ok authoritative
      → partial repair ≡ p
      → Recovers h local receiver authoritative s p

abbrev pub NoCollisionFrom : Option (List ℕ) → List ℕ → ℕ → Type 0
NoCollisionFrom none authoritative chunk_size = Unit
NoCollisionFrom (some base) authoritative chunk_size =
    NoCollision base authoritative (max chunk_size 1)

-- A plan is as good as another and no dearer than the snapshot.
module _ (h : RecoveryHistory) (local : Option ℕ) (authoritative : List ℕ) (s : Packet)
    (chunk_size : ℕ) (small : length authoritative ≤ isize_max) where
  abbrev IsGood : Option (List ℕ) → V30RecoveryPlan → Type 0
  IsGood receiver p =
      Recovers h local receiver authoritative s p × (estimated_payload_bytes p ≤ encoded_len s)

  try_repair-IsGood :
      (receiver : Option (List ℕ)) (best : V30RecoveryPlan)
      → NoCollisionFrom receiver authoritative chunk_size
      → IsGood receiver best
      → IsGood receiver (try_repair receiver authoritative chunk_size best)
  unfolding try_repair
  try_repair-IsGood none best safe good = good
  try_repair-IsGood (some base) best safe good =
      let repair = build base authoritative chunk_size in
      elim (Bool-cases (ltb (payload_bytes repair) (estimated_payload_bytes best))) [
        | inl less ↦ rw less (
          by_repair base repair refl (apply-build base authoritative chunk_size small safe) refl,
          ground (arith, good.1),
        )
        | inr more ↦ rw more good
      ]

  -- If the snapshot's sequence lies below `u64::MAX` and its length is a `u64`, the authoritative
  -- state fits a slice and no chunk of the receiver's state has the hash of a different chunk of
  -- it, `plan_recovery` never fails. Its plan is the snapshot, the replay of the missing packets
  -- from the history, or a repair that turns the receiver's state into the authoritative one, and
  -- its estimate is no larger than the snapshot.
  pub plan_recovery_cases :
      (receiver : Option (List ℕ))
      → s.sequence < u64_max
      → encoded_len s ≤ u64_max
      → NoCollisionFrom receiver authoritative chunk_size
      → (p : V30RecoveryPlan) × (plan_recovery h local receiver authoritative s chunk_size ≡ ok p)
        × Recovers h local receiver authoritative s p
        × (estimated_payload_bytes p ≤ encoded_len s)
  unfolding plan_recovery as_v30 estimated_payload_bytes
  plan_recovery_cases receiver room fits safe = elim (plan_cases h local s room fits) [
    | inl (e, useless) ↦
        let good = try_repair-IsGood receiver (whole s) safe (by_snapshot refl, omega arith) in
        (_, rw e refl, good.0, good.1)
    | inr (ps, e, served) ↦
        let good = try_repair-IsGood receiver (replay_packets ps) safe (
          by_replay served.local ps served.local_eq served.serves refl,
          omega (arith, served.serves.cheaper),
        ) in
        (_, rw e refl, good.0, good.1)
  ]
