-- ===== src/Schema/Fields.antt =====
-- The changed and the removed fields lead from the old object to the new one.
use Prim.Native.Nat.{lt, eq, gt}
use delta_stream.Common.{
  ◌≡◌, ◌⊎◌, refl, sym, ap, ap₂, subst, ◌∙◌, inl, inr, Bool, true, false, not, ◌&&◌, Bool-cases,
  List, [], ◌∷◌, Option, none, some, if◌then◌else◌, arith,
}
use delta_stream.Crdt.ReplicaId.{cmp, Ordering-cases, cmp_refl, cmp-eq}
use delta_stream.Crdt.Components.{
  Entries, get, put, Above, IsSorted, get-put_self, get-put_ne, put-IsSorted,
}
use delta_stream.Crdt.Extensional.{get-Above, get_head, get_ext}
use delta_stream.Schema.{
  Key, remove, contains_key, changes, changed_loop, removed_loop, remove_all, insert_all,
  is_present,
}

same_or_not : (k j : Key) → (k ≡ j) ⊎ (¬ (k ≡ j) × ((cmp k j ≡ lt) ⊎ (cmp k j ≡ gt)))
same_or_not k j = elim (Ordering-cases (cmp k j)) [
  | inl below ↦ inr (differ below, inl below)
  | inr (inl same) ↦ inl (cmp-eq k j same)
  | inr (inr above) ↦ inr (differ' above, inr above)
]
  where
    differ : cmp k j ≡ lt → ¬ (k ≡ j)
    differ h e = ground (arith, cmp_refl k)

    differ' : cmp k j ≡ gt → ¬ (k ≡ j)
    differ' h e = ground (arith, cmp_refl k)

is_listed : Key → List Key → Bool
is_listed k [] = false
is_listed k (j ∷ js) = let rest = is_listed k js in elim (cmp k j) [ eq ↦ true | _ ↦ rest ]

is_listed_tail :
    (k j : Key) (js : List Key)
    → (cmp k j ≡ lt) ⊎ (cmp k j ≡ gt)
    → is_listed k (j ∷ js) ≡ is_listed k js
unfolding is_listed
is_listed_tail k j js (inl c) = rw (c, is_listed) refl
is_listed_tail k j js (inr c) = rw (c, is_listed) refl

is_listed_head : (k : Key) (js : List Key) → is_listed k (k ∷ js) ≡ true
unfolding is_listed
is_listed_head k js = rw (cmp_refl k, is_listed) refl

listed_other :
    (k j : Key) (b : Bool) (rest : List Key)
    → (cmp k j ≡ lt) ⊎ (cmp k j ≡ gt)
    → is_listed k (if not b then j ∷ rest else rest) ≡ is_listed k rest
listed_other k j true rest c = refl
listed_other k j false rest c = is_listed_tail k j rest c

module _ {V : Type 0} where
  remove-Above : (l k : Key) (m : Entries V) → Above l m → Above l (remove k m)
  unfolding remove
  remove-Above l k [] a = tt
  remove-Above l k ((j, v) ∷ m) a = ground (arith, remove-Above l k m a.1)

  remove-IsSorted : (k : Key) (m : Entries V) → IsSorted m → IsSorted (remove k m)
  unfolding remove
  remove-IsSorted k [] s = tt
  remove-IsSorted k ((j, v) ∷ m) s = ground (arith, remove-Above j k m s.0, remove-IsSorted k m s.1)

  get-remove_self : (k : Key) (m : Entries V) → IsSorted m → get k (remove k m) ≡ none
  unfolding get remove
  get-remove_self k [] s = refl
  get-remove_self k ((j, v) ∷ m) s =
      ground (arith, get-remove_self k m s.1, cmp-eq k j, get-Above j m s.0)

  get-remove_ne : (k i : Key) (m : Entries V) → ¬ (i ≡ k) → get i (remove k m) ≡ get i m
  unfolding get remove
  get-remove_ne k i [] h = refl
  get-remove_ne k i ((j, v) ∷ m) h = ground (arith, get-remove_ne k i m h, cmp-eq k j, cmp-eq i j)

  get_tail :
      (k j : Key) (v : V) (m : Entries V)
      → (cmp k j ≡ lt) ⊎ (cmp k j ≡ gt)
      → get k ((j, v) ∷ m) ≡ get k m
  unfolding get
  get_tail k j v m (inl c) = rw (c, get) refl
  get_tail k j v m (inr c) = rw (c, get) refl

  -- What is left after the removals.
  kept : Bool → Option V → Option V
  kept listed o = if listed then none else o

  get-remove_all :
      (k : Key) (keys : List Key) (m : Entries V)
      → IsSorted m
      → get k (remove_all keys m) ≡ kept (is_listed k keys) (get k m)
  unfolding remove_all kept is_listed
  get-remove_all k [] m s = refl
  get-remove_all k (j ∷ js) m s =
      let rest = get-remove_all k js (remove j m) (remove-IsSorted j m s) in
      elim (same_or_not k j) [
        | inl e ↦
            let gone : get k (remove j m) ≡ none = rw e (get-remove_self j m s) in
            let here_ : is_listed k (j ∷ js) ≡ true =
              subst (λ i. is_listed k (i ∷ js) ≡ true) e (is_listed_head k js) in
            rest
            ∙ ap (kept (is_listed k js)) gone
            ∙ kept-none (is_listed k js)
            ∙ sym (ap (λ b. kept b (get k m)) here_)
        | inr (n, c) ↦
            rest
            ∙ ap (kept (is_listed k js)) (get-remove_ne j k m n)
            ∙ ap (λ b. kept b (get k m)) (sym (is_listed_tail k j js c))
      ]
    where
      kept-none : (b : Bool) → kept b none ≡ none
      kept-none true = refl
      kept-none false = refl

  or_else : Option V → Option V → Option V
  or_else none o = o
  or_else (some v) o = some v

  get-insert_all :
      (k : Key) (changed m : Entries V)
      → IsSorted changed
      → get k (insert_all changed m) ≡ or_else (get k changed) (get k m)
  unfolding insert_all or_else get
  get-insert_all k [] m s = refl
  get-insert_all k ((j, v) ∷ rest) m s =
      let ih = get-insert_all k rest (put j v m) s.1 in
      elim (same_or_not k j) [
        | inl e ↦ rw e (
            get-insert_all j rest (put j v m) s.1
            ∙ ap₂ or_else (get-Above j rest s.0) (get-put_self j v m)
            ∙ sym (ap (λ o. or_else o (get j m)) (get_head j v rest)))
        | inr (n, c) ↦ ih ∙ ap₂ or_else (sym (get_tail k j v rest c)) (get-put_ne j k v m n)
      ]

  remove_all-IsSorted :
      (keys : List Key) (m : Entries V) → IsSorted m → IsSorted (remove_all keys m)
  unfolding remove_all
  remove_all-IsSorted [] m s = s
  remove_all-IsSorted (k ∷ ks) m s = remove_all-IsSorted ks (remove k m) (remove-IsSorted k m s)

  insert_all-IsSorted : (changed m : Entries V) → IsSorted m → IsSorted (insert_all changed m)
  unfolding insert_all
  insert_all-IsSorted [] m s = s
  insert_all-IsSorted ((k, v) ∷ rest) m s =
      insert_all-IsSorted rest (put k v m) (put-IsSorted k v m s)

  listed_self :
      (j : Key) (b : Bool) (o : Option V) (rest : List Key)
      → is_listed j rest ≡ is_present o && not b
      → is_listed j (if not b then j ∷ rest else rest) ≡ not b
  unfolding is_present
  listed_self j true none rest h = h
  listed_self j true (some v) rest h = h
  listed_self j false o rest h = is_listed_head j rest

  -- A key is removed where the old object has it and the new one does not.
  is_listed-removed_loop :
      (k : Key) (old new : Entries V)
      → is_listed k (removed_loop old new) ≡ is_present (get k old) && not (is_present (get k new))
  unfolding removed_loop is_listed get
  is_listed-removed_loop k [] new = refl
  is_listed-removed_loop k ((j, v) ∷ old) new = elim (same_or_not k j) [
    | inl e ↦ rw e (
        unfold contains_key in
        listed_self j (is_present (get j new)) (get j old) (removed_loop old new)
          (is_listed-removed_loop j old new)
        ∙ ap (λ o. is_present o && not (is_present (get j new))) (sym (get_head j v old)))
    | inr (n, c) ↦
        listed_other k j (contains_key j new) (removed_loop old new) c
        ∙ is_listed-removed_loop k old new
        ∙ ap (λ o. is_present o && not (is_present (get k new))) (sym (get_tail k j v old c))
  ]

module _ {V : Type 0} (same_value : V → V → Bool) where
  -- What the loop over the new entries finds at a key.
  pick : Option V → Option V → Option V
  pick o none = none
  pick o (some v) = if changes same_value o v then some v else none

  put_self :
      (j : Key) (v : V) (b : Bool) (acc : Entries V)
      → get j (if b then put j v acc else acc) ≡ or_else (if b then some v else none) (get j acc)
  unfolding or_else
  put_self j v true acc = get-put_self j v acc
  put_self j v false acc = refl

  put_other :
      (k j : Key) (v : V) (b : Bool) (acc : Entries V)
      → ¬ (k ≡ j)
      → get k (if b then put j v acc else acc) ≡ get k acc
  put_other k j v true acc n = get-put_ne j k v acc n
  put_other k j v false acc n = refl

  get-changed_loop :
      (k : Key) (old new acc : Entries V)
      → IsSorted new
      → get k (changed_loop same_value old new acc)
        ≡ or_else (pick (get k old) (get k new)) (get k acc)
  unfolding changed_loop pick or_else get
  get-changed_loop k old [] acc s = refl
  get-changed_loop k old ((j, v) ∷ new) acc s =
      let b = changes same_value (get j old) v in
      let acc' = if b then put j v acc else acc in
      elim (same_or_not k j) [
        | inl e ↦ rw e (
            get-changed_loop j old new acc' s.1
            ∙ ap (λ o. or_else (pick (get j old) o) (get j acc')) (get-Above j new s.0)
            ∙ put_self j v b acc
            ∙ ap (λ o. or_else (pick (get j old) o) (get j acc)) (sym (get_head j v new)))
        | inr (n, c) ↦
            get-changed_loop k old new acc' s.1
            ∙ ap₂ (λ o a. or_else (pick (get k old) o) a) (sym (get_tail k j v new c))
                (put_other k j v b acc n)
      ]

  changed_loop-IsSorted :
      (old new acc : Entries V) → IsSorted acc → IsSorted (changed_loop same_value old new acc)
  unfolding changed_loop
  changed_loop-IsSorted old [] acc s = s
  changed_loop-IsSorted old ((j, v) ∷ new) acc s =
      changed_loop-IsSorted old new _ (put_if (changes same_value (get j old) v))
    where
      put_if : (b : Bool) → IsSorted (if b then put j v acc else acc)
      put_if true = put-IsSorted j v acc s
      put_if false = s

  -- The new value of a key, from the old one and what was picked.
  settled :
      (o n : Option V)
      → ((a b : V) → o ≡ some a → n ≡ some b → same_value a b ≡ true → a ≡ b)
      → or_else (or_else (pick o n) none) (kept (is_present o && not (is_present n)) o) ≡ n
  unfolding pick or_else kept changes is_present
  settled none none told = refl
  settled (some a) none told = refl
  settled none (some v) told = refl
  settled (some a) (some v) told = elim (Bool-cases (same_value a v)) [
    | inl same ↦ rw same (ap some (told a v refl refl same))
    | inr differ ↦ rw differ refl
  ]

  -- Two objects whose values at a common key are equal where the comparison says so.
  abbrev pub AreTold : Entries V → Entries V → Type 0
  AreTold old new =
      (k : Key) (a b : V) → get k old ≡ some a → get k new ≡ some b → same_value a b ≡ true → a ≡ b

  -- Removing and inserting what the two loops found turns the old object into the new one.
  pub insert_all-changed_loop :
      (old new : Entries V)
      → AreTold old new
      → IsSorted old
      → IsSorted new
      → insert_all (changed_loop same_value old new []) (remove_all (removed_loop old new) old)
        ≡ new
  unfolding get
  insert_all-changed_loop old new told so sn =
      let changed = changed_loop same_value old new [] in
      let removed = removed_loop old new in
      get_ext (insert_all changed (remove_all removed old)) new
        (insert_all-IsSorted changed (remove_all removed old) (remove_all-IsSorted removed old so))
        sn
        (λ k.
          get-insert_all k changed (remove_all removed old) (changed_loop-IsSorted old new [] tt)
          ∙ ap₂ or_else (get-changed_loop k old new [] sn) (
              get-remove_all k removed old so
              ∙ ap (λ b. kept b (get k old)) (is_listed-removed_loop k old new))
          ∙ settled (get k old) (get k new) (told k))
