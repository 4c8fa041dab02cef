-- ===== src/Tests/Repairs.antt =====
-- A repair of a short state, a recovery plan, and packets out of order.
use delta_stream.Common.{ℕ, zero, suc, ◌≤◌, ◌≡◌, refl, List, [], ◌∷◌, some, arith}
use delta_stream.Error.{ok}
use delta_stream.Hash.{fnv1a64}
use delta_stream.Packet.{Packet, encoded_len, snapshot_packet, delta_packet, default_config}
use delta_stream.Recovery.History.{RecoveryHistory}
use delta_stream.Repair.{chunk_at, build, apply}
use delta_stream.Repair.Apply.{NoCollision, apply-build}
use delta_stream.Repair.Plan.{
  V30RecoveryPlan, Recovers, estimated_payload_bytes, plan_recovery, plan_recovery_cases,
}
use delta_stream.State.{AgentState}
use delta_stream.Stream.Decoder.{new_decoder}
use delta_stream.Stream.Invariant.{IsDecoder, start, Reach-IsDecoder}
use delta_stream.Stream.Reorder as Reorder
use delta_stream.Stream.Reorder.{ReorderDecoder}
use delta_stream.Stream.Reorder.Refine.{Refines, reorder-Refines}
use delta_stream.Stream.Agent.{agent_codec}
use delta_stream.Tests.{toy}

abbrev theirs : List ℕ
theirs = 1 ∷ 2 ∷ 3 ∷ 4 ∷ 5 ∷ []

abbrev ours : List ℕ
ours = 1 ∷ 2 ∷ 9 ∷ []

-- Of the two chunks of the authoritative state the first is the same, the second has another hash.
theirs-NoCollision : NoCollision theirs ours 2
unfolding chunk_at fnv1a64
theirs-NoCollision zero inside same = refl
theirs-NoCollision (suc zero) inside same = absurd (omega arith)
theirs-NoCollision (suc (suc i)) inside same = absurd (omega arith)

apply-build_example : apply (build theirs ours 2) theirs ≡ ok ours
apply-build_example = apply-build theirs ours 2 (omega arith) theirs-NoCollision

abbrev history : RecoveryHistory
history = record {
  packets = delta_packet 2 1 9 7 (1 ∷ []) ∷ [];
  max_packets = 4;
  max_bytes = 1000;
  bytes = 47;
}

abbrev target : Packet
target = snapshot_packet 2 9 7 ours

plan_recovery_cases_example :
    (p : V30RecoveryPlan) × (plan_recovery history (some 1) (some theirs) ours target 2 ≡ ok p)
    × Recovers history (some 1) (some theirs) ours target p
    × (estimated_payload_bytes p ≤ encoded_len target)
unfolding encoded_len
plan_recovery_cases_example =
    plan_recovery_cases history (some 1) ours target 2 (omega arith) (some theirs) (omega arith)
      (omega arith) theirs-NoCollision

abbrev waiting : ReorderDecoder AgentState
waiting = record {
  decoder = new_decoder default_config;
  pending = (6, delta_packet 6 5 9 7 (0 ∷ 0 ∷ [])) ∷ [];
  max_gap = 8;
  max_pending = 64;
}

fresh-IsDecoder : IsDecoder waiting.decoder
fresh-IsDecoder = Reach-IsDecoder agent_codec toy default_config waiting.decoder start

reorder-Refines_example :
    Refines agent_codec toy waiting target (Reorder.apply agent_codec toy waiting target)
    × IsDecoder (Reorder.apply agent_codec toy waiting target).0.decoder
reorder-Refines_example =
    reorder-Refines agent_codec toy waiting target (omega arith) fresh-IsDecoder
