-- ===== src/Crdt/PnCounter.antt =====
-- src/crdt/pncounter.rs: the counter that also counts down.
use delta_stream.Common.{ℕ, ◌<◌, ◌≡◌, Bool, true, false, if◌then◌else◌, ◌-◌, leb, ◌||◌}
use delta_stream.Common.Bytes.{ℤ, minus}
use delta_stream.Crdt.ReplicaId.{ReplicaId, Outcome, ok, err}
use delta_stream.Crdt.GCounter
use delta_stream.Crdt.GCounter.{GCounter}
pub mod Laws

pub record PnCounter : Type 0 where
  pub positive : GCounter
  pub negative : GCounter

unfoldable pub up : PnCounter → GCounter × Outcome (Unit {0}) → PnCounter × Outcome (Unit {0})
up c (positive, r) = (record c { positive = positive }, r)

unfoldable pub down : PnCounter → GCounter × Outcome (Unit {0}) → PnCounter × Outcome (Unit {0})
down c (negative, r) = (record c { negative = negative }, r)

unfoldable pub increment : PnCounter → ReplicaId → ℕ → PnCounter × Outcome (Unit {0})
increment c replica amount = up c (GCounter.increment c.positive replica amount)

unfoldable pub decrement : PnCounter → ReplicaId → ℕ → PnCounter × Outcome (Unit {0})
decrement c replica amount = down c (GCounter.increment c.negative replica amount)

-- The subtraction is in `i128`, in whose range the difference of two `u64` always lies.
unfoldable pub value : PnCounter → Outcome ℤ
value c = elim (GCounter.value c.positive) [
  | err e ↦ err e
  | ok p ↦ elim (GCounter.value c.negative) [ err e ↦ err e | ok n ↦ ok (minus p n) ]
]

unfoldable pub merge : PnCounter → PnCounter → PnCounter × Bool
merge self other =
    let p = GCounter.merge self.positive other.positive in
    let n = GCounter.merge self.negative other.negative in
    (record { positive = p.0; negative = n.0 }, p.1 || n.1)
