-- ===== src/Crdt/LwwRegister/Laws.antt =====
-- The register of src/crdt/lww_register.rs: the order of its writes, and its merge.
use Prim.Native.Nat.{lt}
use delta_stream.Common.{
  ℕ, ◌<◌, ◌≡◌, refl, sym, subst, true, false, ◌⊎◌, inl, inr, arith, Bool-cases,
}
use delta_stream.Crdt.ReplicaId.{
  ReplicaId, cmp, Ordering-cases, cmp_refl, cmp-eq, cmp_flip, cmp_flip_lt, cmp_trans,
}
use delta_stream.Crdt.LwwRegister.{LwwRegister, wins, assign, merge}

-- The order on `(timestamp, replica)`.
abbrev Later : ℕ → ReplicaId → ℕ → ReplicaId → Type 0
Later t r u s = (u < t) ⊎ ((t ≡ u) × (cmp s r ≡ lt))

wins-Later : (t : ℕ) (r : ReplicaId) (u : ℕ) (s : ReplicaId) → wins t r u s ≡ true → Later t r u s
unfolding wins
wins-Later t r u s h = ground (arith, cmp_flip r s)

wins-not : (t : ℕ) (r : ReplicaId) (u : ℕ) (s : ReplicaId) → wins t r u s ≡ false → ¬ Later t r u s
unfolding wins
wins-not t r u s h l = ground (arith, cmp_flip_lt s r)

Later-wins : (t : ℕ) (r : ReplicaId) (u : ℕ) (s : ReplicaId) → Later t r u s → wins t r u s ≡ true
Later-wins t r u s l = elim (Bool-cases (wins t r u s)) [
  | inl e ↦ e
  | inr e ↦ absurd (wins-not t r u s e l)
]

not-wins : (t : ℕ) (r : ReplicaId) (u : ℕ) (s : ReplicaId) → ¬ Later t r u s → wins t r u s ≡ false
not-wins t r u s n = elim (Bool-cases (wins t r u s)) [
  | inl e ↦ absurd (n (wins-Later t r u s e))
  | inr e ↦ e
]

Later-trans :
    (t : ℕ) (r : ReplicaId) (u : ℕ) (s : ReplicaId) (v : ℕ) (q : ReplicaId)
    → Later t r u s
    → Later u s v q
    → Later t r v q
Later-trans t r u s v q h k = ground (arith, cmp_trans q s r)

-- Of two writes one is later, or their metadata is the same.
Later-total :
    (t : ℕ) (r : ReplicaId) (u : ℕ) (s : ReplicaId)
    → Later t r u s ⊎ Later u s t r ⊎ ((t ≡ u) × (r ≡ s))
Later-total t r u s = elim (Ordering-cases (cmp r s)) [
  | inl e ↦ ground arith
  | inr (inl e) ↦ (let same = cmp-eq r s e in ground arith)
  | inr (inr e) ↦ (let flip = cmp_flip r s e in ground arith)
]

Later-irrefl : (t : ℕ) (r : ReplicaId) (u : ℕ) (s : ReplicaId) → Later t r u s → ¬ Later u s t r
Later-irrefl t r u s h k = ground (arith, cmp_flip_lt s r)

not-Later-trans :
    (t : ℕ) (r : ReplicaId) (u : ℕ) (s : ReplicaId) (v : ℕ) (q : ReplicaId)
    → ¬ Later t r u s
    → ¬ Later u s v q
    → ¬ Later t r v q
not-Later-trans t r u s v q h k l = elim (Later-total t r u s) [
  | inl a ↦ h a
  | inr (inl b) ↦ k (Later-trans u s t r v q b l)
  | inr (inr (e, f)) ↦ k (subst (λ x. Later x s v q) e (subst (λ x. Later t x v q) f l))
]

module _ {ℓ} {T : Type ℓ} where
  -- The write of `b` is later than that of `a`.
  abbrev pub Beats : LwwRegister T → LwwRegister T → Type 0
  Beats b a = Later b.timestamp b.replica a.timestamp a.replica

  Beats-or-not : (b a : LwwRegister T) → Beats b a ⊎ (¬ Beats b a)
  Beats-or-not b a = elim (Later-total b.timestamp b.replica a.timestamp a.replica) [
    | inl l ↦ inl l
    | inr (inl l) ↦ inr (λ k. Later-irrefl b.timestamp b.replica a.timestamp a.replica k l)
    | inr (inr (e, f)) ↦ inr (λ k. ground (arith, cmp_refl a.replica))
  ]

  merge-Beats : (a b : LwwRegister T) → Beats b a → merge a b ≡ (b, true)
  unfolding merge assign
  merge-Beats a b l = rw (Later-wins b.timestamp b.replica a.timestamp a.replica l) refl

  merge-not-Beats : (a b : LwwRegister T) → ¬ Beats b a → merge a b ≡ (a, false)
  unfolding merge assign
  merge-not-Beats a b n = rw (not-wins b.timestamp b.replica a.timestamp a.replica n) refl

  tie-not-Beats :
      (b a : LwwRegister T) → b.timestamp ≡ a.timestamp → b.replica ≡ a.replica → ¬ Beats b a
  tie-not-Beats b a e f k = ground (arith, cmp_refl a.replica)

  register_ext :
      (a b : LwwRegister T)
      → a.timestamp ≡ b.timestamp
      → a.replica ≡ b.replica
      → a.value ≡ b.value
      → a ≡ b
  register_ext a b e f g = λ i. record { value = g i; timestamp = e i; replica = f i }

  -- Merging three last-write-wins registers does not depend on the grouping.
  pub register_merge_assoc :
      (a b c : LwwRegister T) → (merge (merge a b).0 c).0 ≡ (merge a (merge b c).0).0
  register_merge_assoc a b c = elim (Beats-or-not b a) [
    | inl ba ↦ elim (Beats-or-not c b) [
      | inl cb ↦
          let ca =
            Later-trans c.timestamp c.replica b.timestamp b.replica a.timestamp a.replica cb ba in
          rw (merge-Beats a b ba, merge-Beats b c cb, merge-Beats a c ca) refl
      | inr ncb ↦ rw (merge-Beats a b ba, merge-not-Beats b c ncb, merge-Beats a b ba) refl
    ]
    | inr nba ↦ elim (Beats-or-not c b) [
      | inl cb ↦ rw (merge-not-Beats a b nba, merge-Beats b c cb) refl
      | inr ncb ↦
          let nca =
            not-Later-trans c.timestamp c.replica b.timestamp b.replica a.timestamp a.replica ncb
              nba in
          rw
            (
              merge-not-Beats a b nba,
              merge-not-Beats b c ncb,
              merge-not-Beats a c nca,
              merge-not-Beats a b nba,
            )
            refl
    ]
  ]

  -- Two last-write-wins registers merge to the same register in both orders, provided that writes
  -- with the same timestamp and replica carry the same value.
  pub register_merge_comm :
      (a b : LwwRegister T)
      → (a.timestamp ≡ b.timestamp → a.replica ≡ b.replica → a.value ≡ b.value)
      → (merge a b).0 ≡ (merge b a).0
  register_merge_comm a b agree = elim (Later-total b.timestamp b.replica a.timestamp a.replica) [
    | inl l ↦
        let n = Later-irrefl b.timestamp b.replica a.timestamp a.replica l in
        rw (merge-Beats a b l, merge-not-Beats b a n) refl
    | inr (inl l) ↦
        let n = Later-irrefl a.timestamp a.replica b.timestamp b.replica l in
        rw (merge-Beats b a l, merge-not-Beats a b n) refl
    | inr (inr (e, f)) ↦
        rw
          (
            merge-not-Beats a b (tie-not-Beats b a e f),
            merge-not-Beats b a (tie-not-Beats a b (sym e) (sym f)),
          )
          (register_ext a b (sym e) (sym f) (agree (sym e) (sym f)))
  ]
