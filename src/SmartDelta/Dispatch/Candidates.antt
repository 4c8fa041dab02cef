-- ===== src/SmartDelta/Dispatch/Candidates.antt =====
-- What `encode_candidates` offers, and when `encode_candidate` succeeds.
use delta_stream.Common.{
  ℕ, ◌≤◌, ◌≡◌, ◌↔◌, ◌⊎◌, refl, List, [], ◌∷◌, ◌==◌, if◌then◌else◌, length, inl, inr, Bool-cases,
  ==_iff, All, isize_max, IsU64, not, false, map, arith,
}
use delta_stream.Error.{DeltaError, ok, ok_injective, err-ne-ok, fail_if, ◌>>=◌, ◌>>◌}
use delta_stream.SmartDelta.Kind.{
  SmartDeltaKind, SmartDeltaCandidate, SmartDeltaPolicy, sparse, ranges, xor, splice, chunks,
}
use delta_stream.SmartDelta.Dispatch.{encode_candidates, candidate_payload, encode_candidate}
use delta_stream.SmartDelta.Dispatch.RoundTrip.{Leads, candidate_payload-Leads}

-- The kinds that a pair of states admits, in the order in which they are tried.
abbrev pub admitted_kinds : List ℕ → List ℕ → List SmartDeltaKind
admitted_kinds previous current =
    if length previous == length current
    then sparse ∷ ranges ∷ xor ∷ splice ∷ chunks ∷ []
    else splice ∷ chunks ∷ []

module _ (previous current : List ℕ) (policy : SmartDeltaPolicy) where
  -- The payload that `encode_candidate` makes for the candidate's kind.
  abbrev IsMade : SmartDeltaCandidate → Type 0
  IsMade c = candidate_payload c.kind previous current policy ≡ ok c.payload

  pub encode_candidates-IsMade :
      (cs : List SmartDeltaCandidate)
      → encode_candidates previous current policy ≡ ok cs
      → All IsMade cs × (map (λ c. c.kind) cs ≡ admitted_kinds previous current)
  unfolding encode_candidates candidate_payload
  encode_candidates-IsMade cs e = elim (Bool-cases (length previous == length current)) [
    | inl same ↦
        rw (← ok_injective _ cs (rw same at e), same)
          ((refl, (refl, (refl, (refl, (refl, tt))))), refl)
    | inr differ ↦ rw (← ok_injective _ cs (rw differ at e), differ) ((refl, (refl, tt)), refl)
  ]

  module _ (hp : length previous ≤ isize_max) (hc : length current ≤ isize_max)
      (hs : IsU64 policy.chunk_size) where
    made-Leads :
        (cs : List SmartDeltaCandidate)
        → All IsMade cs
        → All (λ c. length c.payload ≤ isize_max) cs
        → All (λ c. Leads previous current c.kind c.payload) cs
    made-Leads [] m b = tt
    made-Leads (c ∷ cs) m b = (
      candidate_payload-Leads previous current policy hp hc hs c.kind c.payload m.0 b.0,
      made-Leads cs m.1 b.1,
    )

    -- `encode_candidates` offers exactly the kinds that the two lengths admit, in the order of the
    -- source, and every candidate applies to the previous state to give the current one and is
    -- recognised as its kind, for states and payloads that fit `isize` and a `u64` chunk size.
    pub encode_candidates-Leads :
        (cs : List SmartDeltaCandidate)
        → encode_candidates previous current policy ≡ ok cs
        → All (λ c. length c.payload ≤ isize_max) cs
        → All (λ c. Leads previous current c.kind c.payload) cs
          × (map (λ c. c.kind) cs ≡ admitted_kinds previous current)
    encode_candidates-Leads cs e big =
        let (m, kinds) = encode_candidates-IsMade cs e in (made-Leads cs m big, kinds)

-- The kinds that take states of any lengths.
abbrev pub AnyLength : SmartDeltaKind → Type 0
AnyLength splice = Unit
AnyLength chunks = Unit
AnyLength _ = ⊥

checked_total :
    (a b : ℕ) (e : DeltaError) (x : List ℕ) (f : List ℕ → SmartDeltaCandidate)
    → ((c : SmartDeltaCandidate) × (((fail_if (not (a == b)) e >> ok x) >>= λ y. ok (f y)) ≡ ok c))
      ↔ (⊥ ⊎ (a ≡ b))
checked_total a b e x f = elim (Bool-cases (a == b)) [
  | inl same ↦ ((λ h. inr ((==_iff a b).0 same)), (λ h. (f x, rw same refl)))
  | inr differ ↦ (
    (λ h. absurd (err-ne-ok e h.0 (rw differ at h.1))),
    elim [ inl bad ↦ absurd bad | inr eq ↦ absurd (not_same differ eq) ],
  )
]
  where
    not_same : (a == b) ≡ false → a ≡ b → ⊥
    not_same differ eq = ground arith

-- `encode_candidate` succeeds exactly for splices, for chunks, and for any kind between states of
-- equal length.
pub encode_candidate_total :
    (k : SmartDeltaKind) (previous current : List ℕ) (policy : SmartDeltaPolicy)
    → ((c : SmartDeltaCandidate) × (encode_candidate k previous current policy ≡ ok c))
      ↔ (AnyLength k ⊎ (length previous ≡ length current))
unfolding encode_candidate candidate_payload
encode_candidate_total sparse p c policy = checked_total (length p) (length c) _ _ _
encode_candidate_total ranges p c policy = checked_total (length p) (length c) _ _ _
encode_candidate_total xor p c policy = checked_total (length p) (length c) _ _ _
encode_candidate_total splice p c policy = ((λ h. inl tt), (λ h. (_, refl)))
encode_candidate_total chunks p c policy = ((λ h. inl tt), (λ h. (_, refl)))
