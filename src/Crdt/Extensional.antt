-- ===== src/Crdt/Extensional.antt =====
-- Two sorted maps with the same entries are the same map.
use Prim.Native.Nat.{lt, gt}
use delta_stream.Common.{◌≡◌, refl, sym, subst, ◌∙◌, [], ◌∷◌, none, some, ◌⊎◌, inl, inr}
use delta_stream.Crdt.ReplicaId.{
  ReplicaId, cmp, Ordering-cases, cmp_refl, cmp-eq, cmp_flip, cmp_trans,
}
use delta_stream.Crdt.Components.{Entries, get, Above, IsSorted}

module _ {V : Type 0} where
  -- What lies below all keys has no entry.
  pub get-Above : (k : ReplicaId) (m : Entries V) → Above k m → get k m ≡ none
  unfolding get
  get-Above k [] a = refl
  get-Above k ((j, v) ∷ m) a = rw (a.0, get) (get-Above k m a.1)

  pub get_head : (k : ReplicaId) (v : V) (m : Entries V) → get k ((k, v) ∷ m) ≡ some v
  unfolding get
  get_head k v m = rw (cmp_refl k, get) refl

  below_head :
      (k j : ReplicaId) (v : V) (m : Entries V)
      → cmp k j ≡ lt
      → Above j m
      → get k ((j, v) ∷ m) ≡ none
  below_head k j v m h a = get-Above k ((j, v) ∷ m) (h, lower m a)
    where
      lower : (m : Entries V) → Above j m → Above k m
      lower [] a = tt
      lower ((i, w) ∷ m) a = (cmp_trans k j i h a.0, lower m a.1)

  -- A key above the head is looked up in the tail; at the head's key the tail has no entry.
  tail_same :
      (j : ReplicaId) (v w : V) (m n : Entries V)
      → Above j m
      → Above j n
      → ((k : ReplicaId) → get k ((j, v) ∷ m) ≡ get k ((j, w) ∷ n))
      → (k : ReplicaId) → get k m ≡ get k n
  tail_same j v w m n a b h k = elim (Ordering-cases (cmp k j)) [
    | inl below ↦ skip m v n w (h k) (inl below)
    | inr (inl same) ↦ let e = cmp-eq k j same in rw e (get-Above j m a ∙ sym (get-Above j n b))
    | inr (inr above) ↦ skip m v n w (h k) (inr above)
  ]
    where
      skip :
          (m : Entries V) (v : V) (n : Entries V) (w : V)
          → get k ((j, v) ∷ m) ≡ get k ((j, w) ∷ n)
          → (cmp k j ≡ lt) ⊎ (cmp k j ≡ gt)
          → get k m ≡ get k n
      skip m v n w e (inl c) = unfold get in (rw (c, get) at e)
      skip m v n w e (inr c) = unfold get in (rw (c, get) at e)

  some_injective : (v w : V) → some v ≡ some w → v ≡ w
  some_injective v w e = cc

  pub get_ext :
      (m n : Entries V) → IsSorted m → IsSorted n → ((k : ReplicaId) → get k m ≡ get k n) → m ≡ n
  get_ext [] [] s t h = refl
  get_ext [] ((j, w) ∷ n) s t h =
      absurd (none_some (unfold get in sym (get_head j w n) ∙ sym (h j)))
    where
      none_some : some w ≡ none → ⊥
      none_some e = cc
  get_ext ((j, v) ∷ m) [] s t h = absurd (none_some (unfold get in sym (get_head j v m) ∙ h j))
    where
      none_some : some v ≡ none → ⊥
      none_some e = cc
  get_ext ((j, v) ∷ m) ((i, w) ∷ n) s t h = elim (Ordering-cases (cmp j i)) [
    | inl below ↦
        absurd (none_some v (sym (below_head j i w n below t.0) ∙ sym (h j) ∙ get_head j v m))
    | inr (inl same) ↦ same_head (cmp-eq j i same) (get_ext m n s.1 t.1)
    | inr (inr above) ↦
        let below = cmp_flip j i above in
        absurd (none_some w (sym (below_head i j v m below s.0) ∙ h i ∙ get_head i w n))
  ]
    where
      none_some : (x : V) → none ≡ some x → ⊥
      none_some x e = cc

      same_head : j ≡ i → (((k : ReplicaId) → get k m ≡ get k n) → m ≡ n) → (j, v) ∷ m ≡ (i, w) ∷ n
      same_head e tails_ext =
          let h' =
            subst (λ x. (k : ReplicaId) → get k ((j, v) ∷ m) ≡ get k ((x, w) ∷ n)) (sym e) h in
          let a' = subst (λ x. Above x n) (sym e) t.0 in
          let tails = tails_ext (tail_same j v w m n s.0 a' h') in
          let values = some_injective v w (sym (get_head j v m) ∙ h' j ∙ get_head j w n) in cc
