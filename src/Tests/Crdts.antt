-- ===== src/Tests/Crdts.antt =====
-- Counters and registers of two and three replicas.
use delta_stream.Common.{ℕ, ◌+◌, ◌<◌, ◌≤◌, ◌≡◌, ◌⊎◌, refl, [], ◌∷◌, max, u64_max, arith}
use delta_stream.Crdt.ReplicaId.{ReplicaId, ok, err, counter_overflow, cmp}
use delta_stream.Crdt.GCounter.{GCounter, component, increment, merge}
use delta_stream.Crdt.GCounter.Laws.{
  IsCounter, merge_comm, merge_assoc, component-merge, increment-component,
}
use delta_stream.Crdt.PnCounter as Pn
use delta_stream.Crdt.PnCounter.Laws.{pn_merge_laws}
use delta_stream.Crdt.LwwRegister as Lww
use delta_stream.Crdt.LwwRegister.{LwwRegister}
use delta_stream.Crdt.LwwRegister.Laws.{register_merge_assoc, register_merge_comm}

abbrev alpha : ReplicaId
alpha = 97 ∷ []

abbrev beta : ReplicaId
beta = 98 ∷ []

abbrev left : GCounter
left = record { components = (alpha, 3) ∷ (beta, 1) ∷ [] }

abbrev right : GCounter
right = record { components = (beta, 4) ∷ [] }

left-IsCounter : IsCounter left
unfolding cmp
left-IsCounter = ((refl, tt), (tt, tt))

right-IsCounter : IsCounter right
right-IsCounter = (tt, tt)

merge_comm_example : (merge left right).0 ≡ (merge right left).0
merge_comm_example = merge_comm left right left-IsCounter right-IsCounter

merge_assoc_example : (merge (merge left right).0 left).0 ≡ (merge left (merge right left).0).0
merge_assoc_example = merge_assoc left right left left-IsCounter right-IsCounter left-IsCounter

component-merge_example :
    component (merge left right).0 beta ≡ max (component left beta) (component right beta)
component-merge_example = component-merge beta left right right-IsCounter

increment-component_example :
    (component left alpha + 2 ≤ u64_max
      × (increment left alpha 2).1 ≡ ok tt
      × component (increment left alpha 2).0 alpha ≡ component left alpha + 2
      × ((beta ≡ alpha) ⊎ (component (increment left alpha 2).0 beta ≡ component left beta)))
    ⊎ (u64_max < component left alpha + 2
        × (increment left alpha 2).1 ≡ err counter_overflow
        × component (increment left alpha 2).0 beta ≡ component left beta)
increment-component_example = increment-component left alpha beta 2

abbrev up_and_down : Pn.PnCounter
up_and_down = record { positive = left; negative = right }

abbrev only_up : Pn.PnCounter
only_up = record { positive = right; negative = right }

pn_merge_laws_example :
    ((Pn.merge up_and_down only_up).0 ≡ (Pn.merge only_up up_and_down).0)
    × ((Pn.merge (Pn.merge up_and_down only_up).0 only_up).0
        ≡ (Pn.merge up_and_down (Pn.merge only_up only_up).0).0)
    × ((Pn.merge up_and_down up_and_down).0 ≡ up_and_down)
pn_merge_laws_example =
    pn_merge_laws up_and_down only_up only_up (left-IsCounter, right-IsCounter)
      (right-IsCounter, right-IsCounter) (right-IsCounter, right-IsCounter)

abbrev first : LwwRegister ℕ
first = record { value = 10; timestamp = 1; replica = alpha }

abbrev second : LwwRegister ℕ
second = record { value = 20; timestamp = 1; replica = beta }

abbrev third : LwwRegister ℕ
third = record { value = 30; timestamp = 2; replica = alpha }

register_merge_assoc_example :
    (Lww.merge (Lww.merge first second).0 third).0 ≡ (Lww.merge first (Lww.merge second third).0).0
register_merge_assoc_example = register_merge_assoc first second third

later : first.timestamp ≡ third.timestamp → first.value ≡ third.value
later e = absurd (omega arith)

register_merge_comm_example : (Lww.merge first third).0 ≡ (Lww.merge third first).0
register_merge_comm_example = register_merge_comm first third (λ e f. later e)
