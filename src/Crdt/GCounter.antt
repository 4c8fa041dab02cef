-- ===== src/Crdt/GCounter.antt =====
-- src/crdt/gcounter.rs: the grow-only counter.
use delta_stream.Common.{
  ℕ, ◌+◌, ◌<◌, ◌≤◌, ◌≡◌, refl, sym, ap, ◌∙◌, Bool, true, false, List, [], ◌∷◌, Option, none, some,
  if◌then◌else◌, ltb, u64_max, checked_add, arith,
}
use delta_stream.Crdt.ReplicaId.{
  ReplicaId, CrdtError, counter_overflow, value_overflow, Outcome, ok, err,
}
use delta_stream.Crdt.Components.{Components, get, put}
pub mod Merge
pub mod Laws

pub record GCounter : Type 0 where
  pub components : Components

abbrev pub new_g_counter : GCounter
new_g_counter = record { components = [] }

-- `copied().unwrap_or(0)`, and the value that `or_insert(0)` leaves in an entry.
unfoldable pub or_zero : Option ℕ → ℕ
or_zero none = 0
or_zero (some v) = v

unfoldable pub component : GCounter → ReplicaId → ℕ
component c replica = or_zero (get replica c.components)

-- The write of `increment`: the entry exists, with zero if it is new, also when the sum is refused.
unfoldable pub store_sum : GCounter → ReplicaId → Option ℕ → GCounter × Outcome (Unit {0})
store_sum c replica none =
    (record { components = put replica (component c replica) c.components }, err counter_overflow)
store_sum c replica (some sum) = (record { components = put replica sum c.components }, ok tt)

-- The counter afterwards and what the call returns.
unfoldable pub increment : GCounter → ReplicaId → ℕ → GCounter × Outcome (Unit {0})
increment c replica amount = store_sum c replica (checked_add (component c replica) amount)

-- `try_fold` with a checked addition.
unfoldable pub sum_from : ℕ → Components → Outcome ℕ
sum_from total [] = ok total
sum_from total ((k, v) ∷ rest) = elim (checked_add total v) [
  | none ↦ err value_overflow
  | some sum ↦ sum_from sum rest
]

unfoldable pub value : GCounter → Outcome ℕ
value c = sum_from 0 c.components

-- The value of an entry that meets a remote one.
unfoldable pub larger : ℕ → ℕ → ℕ
larger local remote = if ltb local remote then remote else local

-- The loop of `merge` over the entries of the other counter.
unfoldable pub merge_loop : Components → Components → Bool → Components × Bool
merge_loop locals [] changed = (locals, changed)
merge_loop locals ((replica, remote) ∷ rest) changed =
    let local = or_zero (get replica locals) in
    merge_loop (put replica (larger local remote) locals) rest
      (if ltb local remote then true else changed)

unfoldable pub merge : GCounter → GCounter → GCounter × Bool
merge self other =
    let merged = merge_loop self.components other.components false in
    (record { components = merged.0 }, merged.1)
