-- ===== src/Crdt/Components.antt =====
-- The `BTreeMap` of the counters, and that of JSON objects: entries in the order of their keys.
use Prim.Native.Nat.{lt, eq, gt}
use delta_stream.Common.{ℕ, ◌≡◌, refl, List, [], ◌∷◌, Option, none, some, inl, inr, arith}
use delta_stream.Crdt.ReplicaId.{
  ReplicaId, cmp, Ordering-cases, cmp_refl, cmp-eq, cmp_flip, cmp_trans,
}

abbrev pub Entries : Type 0 → Type 0
Entries V = List (ReplicaId × V)

abbrev pub Components : Type 0
Components = Entries ℕ

module _ {V : Type 0} where
  -- `get`
  unfoldable pub get : ReplicaId → Entries V → Option V
  get k [] = none
  get k ((j, v) ∷ m) = let rest = get k m in elim (cmp k j) [ lt ↦ rest | eq ↦ some v | gt ↦ rest ]

  -- The write through an entry, which is put at its place if it is new.
  unfoldable pub put : ReplicaId → V → Entries V → Entries V
  put k v [] = (k, v) ∷ []
  put k v ((j, w) ∷ m) =
      let rest = put k v m in
      elim (cmp k j) [ lt ↦ (k, v) ∷ (j, w) ∷ m | eq ↦ (k, v) ∷ m | gt ↦ (j, w) ∷ rest ]

  -- Every key lies above `k`.
  abbrev pub Above : ReplicaId → Entries V → Type 0
  Above k [] = Unit
  Above k ((j, v) ∷ m) = (cmp k j ≡ lt) × Above k m

  -- The keys ascend, as a `BTreeMap` keeps them.
  abbrev pub IsSorted : Entries V → Type 0
  IsSorted [] = Unit
  IsSorted ((j, v) ∷ m) = Above j m × IsSorted m

  pub get-put_self : (k : ReplicaId) (v : V) (m : Entries V) → get k (put k v m) ≡ some v
  unfolding get put
  get-put_self k v [] = rw (cmp_refl k, get) refl
  get-put_self k v ((j, w) ∷ m) = ground (arith, cmp_refl k, get-put_self k v m)

  pub get-put_ne :
      (k i : ReplicaId) (v : V) (m : Entries V) → ¬ (i ≡ k) → get i (put k v m) ≡ get i m
  unfolding get put
  get-put_ne k i v [] h = ground (arith, cmp-eq i k)
  get-put_ne k i v ((j, w) ∷ m) h =
      ground (arith, cmp-eq i k, cmp-eq k j, cmp-eq i j, get-put_ne k i v m h)

  pub put-Above :
      (l k : ReplicaId) (v : V) (m : Entries V) → cmp l k ≡ lt → Above l m → Above l (put k v m)
  unfolding put
  put-Above l k v [] h a = (h, tt)
  put-Above l k v ((j, w) ∷ m) h a = ground (arith, put-Above l k v m h a.1)

  Above-below : (l k : ReplicaId) (m : Entries V) → cmp l k ≡ lt → Above k m → Above l m
  Above-below l k [] h a = tt
  Above-below l k ((j, w) ∷ m) h a = (cmp_trans l k j h a.0, Above-below l k m h a.1)

  -- A write keeps the order.
  pub put-IsSorted : (k : ReplicaId) (v : V) (m : Entries V) → IsSorted m → IsSorted (put k v m)
  unfolding put
  put-IsSorted k v [] s = (tt, tt)
  put-IsSorted k v ((j, w) ∷ m) s = elim (Ordering-cases (cmp k j)) [
    | inl below ↦ rw (below, put) ((below, Above-below k j m below s.0), s)
    | inr (inl same) ↦ rw (same, put) (rw (cmp-eq k j same) s)
    | inr (inr above) ↦
        rw (above, put) (put-Above j k v m (cmp_flip k j above) s.0, put-IsSorted k v m s.1)
  ]
