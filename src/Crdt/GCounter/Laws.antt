-- ===== src/Crdt/GCounter/Laws.antt =====
-- The counter of src/crdt/gcounter.rs as a join of states.
use delta_stream.Common.{
  ℕ, ◌+◌, ◌<◌, ◌≤◌, ◌≡◌, refl, sym, ap, ◌∙◌, false, Option, none, some, ◌⊎◌, inl, inr, max, arith,
  checked_add-some, checked_add-none, leq-cases, u64_max,
}
use delta_stream.Crdt.ReplicaId.{ReplicaId, ok, err, counter_overflow}
use delta_stream.Crdt.Components.{Components, get, put, IsSorted, get-put_self, get-put_ne}
use delta_stream.Crdt.Extensional.{get_ext}
use delta_stream.Crdt.GCounter.{GCounter, or_zero, component, larger, merge, increment, store_sum}
use delta_stream.Crdt.GCounter.Merge.{join, same_or_not, get-merge_loop, merge_loop-IsSorted}

-- A counter as a `BTreeMap` keeps it.
abbrev pub IsCounter : GCounter → Type 0
IsCounter c = IsSorted c.components

pub merge-IsCounter : (a b : GCounter) → IsCounter a → IsCounter (merge a b).0
unfolding merge
merge-IsCounter a b h = merge_loop-IsSorted a.components b.components false h

pub get-merge :
    (k : ReplicaId) (a b : GCounter)
    → IsCounter b
    → get k (merge a b).0.components ≡ join (get k a.components) (get k b.components)
unfolding merge
get-merge k a b h = get-merge_loop k a.components b.components false h

join_comm : (x y : Option ℕ) → join x y ≡ join y x
unfolding join larger or_zero
join_comm none none = refl
join_comm none (some y) = ground arith
join_comm (some x) none = ground arith
join_comm (some x) (some y) = ground arith

join_assoc : (x y z : Option ℕ) → join (join x y) z ≡ join x (join y z)
unfolding join larger or_zero
join_assoc x none none = refl
join_assoc x none (some z) = ground arith
join_assoc x (some y) none = refl
join_assoc x (some y) (some z) = ground arith

join_idem : (x : Option ℕ) → join x x ≡ x
unfolding join larger or_zero
join_idem none = refl
join_idem (some x) = ground arith

abbrev of_components : Components → GCounter
of_components m = record { components = m }

-- Counters with the same entries are the same counter.
counter_ext :
    (a b : GCounter)
    → IsCounter a
    → IsCounter b
    → ((k : ReplicaId) → get k a.components ≡ get k b.components)
    → a ≡ b
counter_ext a b ha hb h = ap of_components (get_ext a.components b.components ha hb h)

-- Merging two grow-only counters whose keys are in order gives the same counter in both orders.
pub merge_comm : (a b : GCounter) → IsCounter a → IsCounter b → (merge a b).0 ≡ (merge b a).0
merge_comm a b ha hb =
    counter_ext _ _ (merge-IsCounter a b ha) (merge-IsCounter b a hb)
      (λ k. get-merge k a b hb ∙ join_comm _ _ ∙ sym (get-merge k b a ha))

-- Merging three grow-only counters whose keys are in order does not depend on the grouping.
pub merge_assoc :
    (a b c : GCounter)
    → IsCounter a
    → IsCounter b
    → IsCounter c
    → (merge (merge a b).0 c).0 ≡ (merge a (merge b c).0).0
merge_assoc a b c ha hb hc =
    counter_ext _ _ (merge-IsCounter _ c (merge-IsCounter a b ha)) (merge-IsCounter a _ ha) (λ k.
      get-merge k (merge a b).0 c hc
      ∙ ap (λ x. join x (get k c.components)) (get-merge k a b hb)
      ∙ join_assoc _ _ _
      ∙ sym (ap (join (get k a.components)) (get-merge k b c hc))
      ∙ sym (get-merge k a (merge b c).0 (merge-IsCounter b c hb)))

-- Merging a grow-only counter whose keys are in order with itself changes nothing.
pub merge_idem : (a : GCounter) → IsCounter a → (merge a a).0 ≡ a
merge_idem a ha =
    counter_ext _ _ (merge-IsCounter a a ha) ha (λ k. get-merge k a a ha ∙ join_idem _)

or_zero-join : (x y : Option ℕ) → or_zero (join x y) ≡ max (or_zero x) (or_zero y)
unfolding or_zero join larger
or_zero-join none none = ground arith
or_zero-join (some x) none = ground arith
or_zero-join none (some y) = ground arith
or_zero-join (some x) (some y) = ground arith

-- Each replica's component of a merged grow-only counter is the maximum of its two components, if
-- the keys of the other counter are in order.
pub component-merge :
    (k : ReplicaId) (a b : GCounter)
    → IsCounter b
    → component (merge a b).0 k ≡ max (component a k) (component b k)
unfolding component
component-merge k a b hb = ap or_zero (get-merge k a b hb) ∙ or_zero-join _ _

component-put :
    (m : Components) (r k : ReplicaId) (v : ℕ)
    → (or_zero (get r (put r v m)) ≡ v)
      × ((k ≡ r) ⊎ (or_zero (get k (put r v m)) ≡ or_zero (get k m)))
unfolding or_zero
component-put m r k v = (
  rw (get-put_self r v m) refl,
  elim (same_or_not k r) [
    | inl e ↦ inl e
    | inr (n, skip) ↦ inr (ap or_zero (get-put_ne r k v m n))
  ],
)

component-put_same :
    (c : GCounter) (r k : ReplicaId)
    → or_zero (get k (put r (component c r) c.components)) ≡ component c k
unfolding component
component-put_same c r k = elim (same_or_not k r) [
  | inl e ↦ rw e (component-put c.components r r (or_zero (get r c.components))).0
  | inr (n, skip) ↦ ap or_zero (get-put_ne r k (or_zero (get r c.components)) c.components n)
]

-- An increment whose sum is a `u64` adds its amount to the replica's component and leaves the
-- components of all other replicas; one whose sum is not reports the overflow and leaves every
-- component.
pub increment-component :
    (c : GCounter) (r k : ReplicaId) (amount : ℕ)
    → (component c r + amount ≤ u64_max
        × (increment c r amount).1 ≡ ok tt
        × component (increment c r amount).0 r ≡ component c r + amount
        × ((k ≡ r) ⊎ (component (increment c r amount).0 k ≡ component c k)))
      ⊎ (u64_max < component c r + amount
          × (increment c r amount).1 ≡ err counter_overflow
          × component (increment c r amount).0 k ≡ component c k)
unfolding increment store_sum component
increment-component c r k amount = elim (leq-cases (component c r + amount) u64_max) [
  | inl fits ↦
      let e = checked_add-some (component c r) amount fits in
      let w = component-put c.components r k (component c r + amount) in
      rw (e, store_sum) (inl (fits, refl, w.0, w.1))
  | inr over ↦
      let e = checked_add-none (component c r) amount over in
      rw (e, store_sum) (inr (over, refl, component-put_same c r k))
]
