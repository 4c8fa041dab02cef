-- ===== src/Crdt/LwwRegister.antt =====
-- src/crdt/lww_register.rs: the register in which the last write wins.
use Prim.Native.Nat.{Ordering, lt, eq, gt, compare}
use delta_stream.Common.{
  ℕ, ◌<◌, ◌≡◌, refl, sym, ap, ◌∙◌, Bool, true, false, if◌then◌else◌, ◌⊎◌, inl, inr, arith,
}
use delta_stream.Crdt.ReplicaId.{
  ReplicaId, cmp, Ordering-cases, cmp_refl, cmp-eq, cmp_flip, cmp_flip_lt, cmp_trans,
}
pub mod Laws

pub record LwwRegister {ℓ} (T : Type ℓ) : Type ℓ where
  pub value : T
  pub timestamp : ℕ
  pub replica : ReplicaId

-- `(timestamp, &replica) > (self.timestamp, &self.replica)`
unfoldable pub wins : ℕ → ReplicaId → ℕ → ReplicaId → Bool
wins t r u s = elim (compare t u) [ lt ↦ false | eq ↦ is_gt (cmp r s) | gt ↦ true ]
  where
    is_gt : Ordering → Bool
    is_gt lt = false
    is_gt eq = false
    is_gt gt = true

module _ {ℓ} {T : Type ℓ} where
  unfoldable pub assign : LwwRegister T → T → ℕ → ReplicaId → LwwRegister T × Bool
  assign self value timestamp replica =
      if wins timestamp replica self.timestamp self.replica
      then (record { value = value; timestamp = timestamp; replica = replica }, true)
      else (self, false)

  unfoldable pub merge : LwwRegister T → LwwRegister T → LwwRegister T × Bool
  merge self other = assign self other.value other.timestamp other.replica
