-- ===== src/Crdt/GCounter/Merge.antt =====
-- The merge of src/crdt/gcounter.rs, entry by entry.
use delta_stream.Common.{
  ℕ, ◌≡◌, refl, sym, subst, ◌∙◌, Bool, true, [], ◌∷◌, Option, none, some, if◌then◌else◌, ltb, ◌⊎◌,
  inl, inr, arith,
}
use delta_stream.Crdt.ReplicaId.{ReplicaId, cmp, Ordering-cases, cmp-eq, cmp_refl}
use delta_stream.Crdt.Components.{
  Components, get, put, Above, IsSorted, put-IsSorted, get-put_self, get-put_ne,
}
use delta_stream.Crdt.Extensional.{get-Above, get_head}
use delta_stream.Crdt.GCounter.{or_zero, larger, merge_loop}
use Prim.Native.Nat.{lt, gt}

-- The greater entry, where a missing one counts as nothing.
unfoldable pub join : Option ℕ → Option ℕ → Option ℕ
join a none = a
join a (some b) = some (larger (or_zero a) b)

pub same_or_not :
    (k j : ReplicaId)
    → (k ≡ j) ⊎ (¬ (k ≡ j) × ((v : ℕ) (m : Components) → get k ((j, v) ∷ m) ≡ get k m))
same_or_not k j = elim (Ordering-cases (cmp k j)) [
  | inl below ↦ inr (differ below, λ v m. unfold get in rw (below, get) refl)
  | inr (inl same) ↦ inl (cmp-eq k j same)
  | inr (inr above) ↦ inr (differ' above, λ v m. unfold get in rw (above, get) refl)
]
  where
    differ : cmp k j ≡ lt → ¬ (k ≡ j)
    differ h e = ground (arith, cmp_refl k)

    differ' : cmp k j ≡ gt → ¬ (k ≡ j)
    differ' h e = ground (arith, cmp_refl k)

at_key :
    (k r : ReplicaId) (v : ℕ) (rest locals : Components)
    → Above r rest
    → k ≡ r
    → join (get k (put r (larger (or_zero (get r locals)) v) locals)) (get k rest)
      ≡ join (get k locals) (get k ((r, v) ∷ rest))
unfolding join
at_key k r v rest locals a e =
    let w = larger (or_zero (get r locals)) v in
    subst
      (λ x.
        join (get x (put r w locals)) (get x rest) ≡ join (get x locals) (get x ((r, v) ∷ rest)))
      (sym e) (rw (get-put_self r w locals, get-Above r rest a, get_head r v rest) refl)

pub get-merge_loop :
    (k : ReplicaId) (locals remotes : Components) (changed : Bool)
    → IsSorted remotes
    → get k (merge_loop locals remotes changed).0 ≡ join (get k locals) (get k remotes)
unfolding merge_loop join
get-merge_loop k locals [] changed s = unfold get in refl
get-merge_loop k locals ((r, v) ∷ rest) changed s =
    let rec =
      get-merge_loop k (put r (larger (or_zero (get r locals)) v) locals) rest
        (if ltb (or_zero (get r locals)) v then true else changed) s.1 in
    rec ∙ elim (same_or_not k r) [
      | inl e ↦ at_key k r v rest locals s.0 e
      | inr (n, skip) ↦
          rw (get-put_ne r k (larger (or_zero (get r locals)) v) locals n, skip v rest) refl
    ]

pub merge_loop-IsSorted :
    (locals remotes : Components) (changed : Bool)
    → IsSorted locals
    → IsSorted (merge_loop locals remotes changed).0
unfolding merge_loop
merge_loop-IsSorted locals [] changed s = s
merge_loop-IsSorted locals ((r, v) ∷ rest) changed s =
    merge_loop-IsSorted (put r (larger (or_zero (get r locals)) v) locals) rest _
      (put-IsSorted r (larger (or_zero (get r locals)) v) locals s)
