-- ===== src/SmartDelta/Dispatch/RoundTrip.antt =====
-- Every candidate of either encoder, of every kind, applies to the current state.
use delta_stream.Common.{
  ℕ, ◌≤◌, ◌≡◌, refl, ap, subst, List, max, ◌==◌, length, inl, inr, Bool-cases, ==_iff, isize_max,
  IsU64, not, arith,
}
use delta_stream.Error.{DeltaError, ok, fail_if, ◌>>◌, ok_injective, err-ne-ok, Result-cases}
use delta_stream.SmartDelta.Kind.{
  SmartDeltaKind, SmartDeltaCandidate, SmartDeltaPolicy, sparse, ranges, xor, splice, chunks,
  Restores, tag_sparse, tag_ranges, tag_xor, tag_splice, tag_chunks,
}
use delta_stream.SmartDelta.Sparse.{encode_sparse, apply_sparse}
use delta_stream.SmartDelta.Ranges.{encode_ranges, apply_ranges}
use delta_stream.SmartDelta.Xor.{encode_xor, apply_xor}
use delta_stream.SmartDelta.Splice.{encode_splice, apply_splice}
use delta_stream.SmartDelta.Chunks.{encode_chunks, apply_chunks}
use delta_stream.SmartDelta.Sparse.RoundTrip.{sparse-Restores}
use delta_stream.SmartDelta.Ranges.RoundTrip.{ranges-Restores}
use delta_stream.SmartDelta.Xor.RoundTrip.{xor-Restores}
use delta_stream.SmartDelta.Splice.RoundTrip.{splice-Restores}
use delta_stream.SmartDelta.Chunks.RoundTrip.{chunks-Restores}
use delta_stream.SmartDelta.Dispatch.{candidate_payload, encode_candidate, apply, kind}

-- A payload that names its kind and turns `previous` into `current`.
abbrev pub Leads : List ℕ → List ℕ → SmartDeltaKind → List ℕ → Type 0
Leads previous current k payload = (apply previous payload ≡ ok current) × (kind payload ≡ ok k)

lead_sparse :
    {p : List ℕ} (b c : List ℕ) → Restores tag_sparse (apply_sparse b) p c → Leads b c sparse p
unfolding apply kind
lead_sparse b c (body, e, r) = (rw e r, rw e refl)

lead_ranges :
    {p : List ℕ} (b c : List ℕ) → Restores tag_ranges (apply_ranges b) p c → Leads b c ranges p
unfolding apply kind
lead_ranges b c (body, e, r) = (rw e r, rw e refl)

lead_xor : {p : List ℕ} (b c : List ℕ) → Restores tag_xor (apply_xor b) p c → Leads b c xor p
unfolding apply kind
lead_xor b c (body, e, r) = (rw e r, rw e refl)

lead_splice :
    {p : List ℕ} (b c : List ℕ) → Restores tag_splice (apply_splice b) p c → Leads b c splice p
unfolding apply kind
lead_splice b c (body, e, r) = (rw e r, rw e refl)

lead_chunks :
    {p : List ℕ} (b c : List ℕ) → Restores tag_chunks (apply_chunks b) p c → Leads b c chunks p
unfolding apply kind
lead_chunks b c (body, e, r) = (rw e r, rw e refl)

-- A length check that passed.
checked {ℓ} :
    {A : Type ℓ} (a b : ℕ) (e : DeltaError) (x y : A)
    → (fail_if (not (a == b)) e >> ok x) ≡ ok y
    → (a ≡ b) × (x ≡ y)
checked a b e x y h = elim (Bool-cases (a == b)) [
  | inl same ↦ ((==_iff _ _).0 same, ok_injective x y (rw same at h))
  | inr differ ↦ absurd (err-ne-ok e y (rw differ at h))
]

module _ (previous current : List ℕ) (policy : SmartDeltaPolicy) (hp : length previous ≤ isize_max)
    (hc : length current ≤ isize_max) (hs : IsU64 policy.chunk_size) where
  pub candidate_payload-Leads :
      (k : SmartDeltaKind) (payload : List ℕ)
      → candidate_payload k previous current policy ≡ ok payload
      → length payload ≤ isize_max
      → Leads previous current k payload
  unfolding candidate_payload
  candidate_payload-Leads sparse payload e =
      let (same, eq) =
        checked (length previous) (length current) _ (encode_sparse previous current) payload e in
      rw (← eq) λ big. lead_sparse previous current (sparse-Restores previous current same hc)
  candidate_payload-Leads ranges payload e =
      let (same, eq) =
        checked (length previous) (length current) _
          (encode_ranges previous current policy.max_range_gap) payload e in
      rw (← eq) λ big.
        lead_ranges previous current
          (ranges-Restores previous current policy.max_range_gap same hc big)
  candidate_payload-Leads xor payload e =
      let (same, eq) =
        checked (length previous) (length current) _ (encode_xor previous current) payload e in
      rw (← eq) λ big. lead_xor previous current (xor-Restores previous current same hc)
  candidate_payload-Leads splice payload e =
      rw (← ok_injective (encode_splice previous current) payload e)
        λ big. lead_splice previous current (splice-Restores previous current hp hc)
  candidate_payload-Leads chunks payload e =
      rw (← ok_injective (encode_chunks previous current (max policy.chunk_size 1)) payload e)
        λ big. lead_chunks previous current (
          chunks-Restores previous current (max policy.chunk_size 1) (omega arith) (omega arith) hc
            big)

  -- A candidate that `encode_candidate` makes for a kind has that kind, applies to the previous
  -- state to give the current one, and is recognised as its kind, for states and payloads that fit
  -- `isize` and a `u64` chunk size.
  pub encode_candidate-Leads :
      (k : SmartDeltaKind) (c : SmartDeltaCandidate)
      → encode_candidate k previous current policy ≡ ok c
      → length c.payload ≤ isize_max
      → Leads previous current k c.payload × (c.kind ≡ k)
  unfolding encode_candidate
  encode_candidate-Leads k c e big =
      elim (Result-cases (candidate_payload k previous current policy)) [
        | inl (payload, made) ↦
            let e' : ok (record { kind = k; payload = payload }) ≡ ok c = rw made at e in
            let eq =
              ok_injective {A = SmartDeltaCandidate} (record { kind = k; payload = payload }) c
                e' in
            let big' : length payload ≤ isize_max =
              omega (arith, ap (λ (c : SmartDeltaCandidate). length c.payload) eq) in
            let leads = candidate_payload-Leads k payload made big' in
            subst (λ (c : SmartDeltaCandidate). Leads previous current k c.payload × (c.kind ≡ k))
              eq (leads, refl)
        | inr (x, failed) ↦ absurd (err-ne-ok x c (rw failed at e))
      ]
