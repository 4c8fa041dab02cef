-- ===== src/Crdt/ReplicaId.antt =====
-- src/crdt/replica_id.rs: identifiers, ordered lexicographically over their bytes.
use Prim.Native.Nat.{compare, Ordering, lt, eq, gt}
use delta_stream.Common.{ℕ, ◌≡◌, refl, List, [], ◌∷◌, ◌⊎◌, inl, inr, arith}

-- The errors of src/crdt/mod.rs; a serde error is kept as an opaque number.
pub data CrdtError : Type 0 where
  empty_replica_id counter_overflow value_overflow : CrdtError
  encoded_value_too_large : ℕ → ℕ → CrdtError
  serialization deserialization : ℕ → CrdtError

-- What a CRDT operation returns.
pub data Outcome (A : Type 0) : Type 0 where
  ok : A → Outcome A
  err : CrdtError → Outcome A

-- The bytes of the identifier's string.
abbrev pub ReplicaId : Type 0
ReplicaId = List ℕ

unfoldable pub new_replica : List ℕ → Outcome ReplicaId
new_replica [] = err empty_replica_id
new_replica (b ∷ bytes) = ok (b ∷ bytes)

-- The derived `Ord`.
unfoldable pub cmp : ReplicaId → ReplicaId → Ordering
cmp [] [] = eq
cmp [] (b ∷ bs) = lt
cmp (a ∷ as') [] = gt
cmp (a ∷ as') (b ∷ bs) =
    let rest = cmp as' bs in elim (compare a b) [ lt ↦ lt | eq ↦ rest | gt ↦ gt ]

pub Ordering-cases : (o : Ordering) → (o ≡ lt) ⊎ (o ≡ eq) ⊎ (o ≡ gt)
Ordering-cases lt = inl refl
Ordering-cases eq = inr (inl refl)
Ordering-cases gt = inr (inr refl)

pub cmp_refl : (a : ReplicaId) → cmp a a ≡ eq
unfolding cmp
cmp_refl [] = refl
cmp_refl (a ∷ as') = ground (arith, cmp_refl as')

pub cmp-eq : (a b : ReplicaId) → cmp a b ≡ eq → a ≡ b
unfolding cmp
cmp-eq [] [] h = refl
cmp-eq [] (b ∷ bs) h = cc
cmp-eq (a ∷ as') [] h = cc
cmp-eq (a ∷ as') (b ∷ bs) h = ground (arith, cmp-eq as' bs)

pub cmp_flip : (a b : ReplicaId) → cmp a b ≡ gt → cmp b a ≡ lt
unfolding cmp
cmp_flip [] [] h = cc
cmp_flip [] (b ∷ bs) h = cc
cmp_flip (a ∷ as') [] h = refl
cmp_flip (a ∷ as') (b ∷ bs) h = ground (arith, cmp_flip as' bs)

pub cmp_flip_lt : (a b : ReplicaId) → cmp a b ≡ lt → cmp b a ≡ gt
unfolding cmp
cmp_flip_lt [] [] h = cc
cmp_flip_lt [] (b ∷ bs) h = refl
cmp_flip_lt (a ∷ as') [] h = cc
cmp_flip_lt (a ∷ as') (b ∷ bs) h = ground (arith, cmp_flip_lt as' bs)

pub cmp_trans : (a b c : ReplicaId) → cmp a b ≡ lt → cmp b c ≡ lt → cmp a c ≡ lt
unfolding cmp
cmp_trans [] [] c h k = cc
cmp_trans [] (b ∷ bs) [] h k = cc
cmp_trans [] (b ∷ bs) (c ∷ cs) h k = refl
cmp_trans (a ∷ as') [] c h k = cc
cmp_trans (a ∷ as') (b ∷ bs) [] h k = cc
cmp_trans (a ∷ as') (b ∷ bs) (c ∷ cs) h k = ground (arith, cmp_trans as' bs cs)
