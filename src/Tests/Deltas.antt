-- ===== src/Tests/Deltas.antt =====
-- Deltas between two small states.
use delta_stream.Common.{
  ℕ, ◌≤◌, ◌≡◌, ◌↔◌, ◌⊎◌, refl, map, List, [], ◌∷◌, ◌++◌, length, slice?, All, arith,
}
use delta_stream.Error.{ok}
use delta_stream.Varint.{put_var_u64, read_var_u64}
use delta_stream.Varint.RoundTrip.{read_var_u64-put}
use delta_stream.SmartDelta.Kind.{
  SmartDeltaCandidate, sparse, xor, splice, chunks, default_policy, Restores, tag_sparse,
  tag_ranges, tag_xor, tag_splice, tag_chunks,
}
use delta_stream.SmartDelta.Sparse.{encode_sparse, apply_sparse}
use delta_stream.SmartDelta.Ranges.{encode_ranges, apply_ranges}
use delta_stream.SmartDelta.Xor.{encode_xor, apply_xor}
use delta_stream.SmartDelta.Splice.{encode_splice, apply_splice}
use delta_stream.SmartDelta.Chunks.{encode_chunks, apply_chunks}
use delta_stream.SmartDelta.Sparse.RoundTrip.{sparse-Restores}
use delta_stream.SmartDelta.Ranges.RoundTrip.{ranges-Restores}
use delta_stream.SmartDelta.Xor.RoundTrip.{xor-Restores}
use delta_stream.SmartDelta.Splice.RoundTrip.{splice-Restores}
use delta_stream.SmartDelta.Chunks.RoundTrip.{chunks-Restores}
use delta_stream.SmartDelta.Dispatch.{encode_candidates, encode_candidate}
use delta_stream.SmartDelta.Dispatch.RoundTrip.{Leads, encode_candidate-Leads}
use delta_stream.SmartDelta.Dispatch.Candidates.{
  AnyLength, admitted_kinds, encode_candidates-Leads, encode_candidate_total,
}

abbrev old_state : List ℕ
old_state = 1 ∷ 2 ∷ 3 ∷ []

abbrev new_state : List ℕ
new_state = 1 ∷ 9 ∷ 3 ∷ []

abbrev longer : List ℕ
longer = 1 ∷ 9 ∷ 2 ∷ 3 ∷ []

abbrev offered : List SmartDeltaCandidate
offered =
    record { kind = splice; payload = 4 ∷ 4 ∷ 1 ∷ 2 ∷ 1 ∷ 9 ∷ [] }
    ∷ record { kind = chunks; payload = 5 ∷ 4 ∷ 128 ∷ 8 ∷ 1 ∷ 0 ∷ 4 ∷ 1 ∷ 9 ∷ 2 ∷ 3 ∷ [] }
    ∷ []

offered_lem : encode_candidates old_state longer default_policy ≡ ok offered
unfolding encode_candidates encode_splice encode_chunks put_var_u64 slice?
offered_lem = refl

encode_candidates-Leads_example :
    All (λ c. Leads old_state longer c.kind c.payload) offered
    × (map (λ c. c.kind) offered ≡ admitted_kinds old_state longer)
encode_candidates-Leads_example =
    encode_candidates-Leads old_state longer default_policy (omega arith) (omega arith)
      (omega arith) offered offered_lem (omega arith, (omega arith, tt))

abbrev sparse_change : SmartDeltaCandidate
sparse_change = record { kind = sparse; payload = 1 ∷ 3 ∷ 1 ∷ 1 ∷ 9 ∷ [] }

sparse_change_lem : encode_candidate sparse old_state new_state default_policy ≡ ok sparse_change
unfolding encode_candidate encode_sparse put_var_u64
sparse_change_lem = refl

encode_candidate-Leads_example :
    Leads old_state new_state sparse sparse_change.payload × (sparse_change.kind ≡ sparse)
encode_candidate-Leads_example =
    encode_candidate-Leads old_state new_state default_policy (omega arith) (omega arith)
      (omega arith) sparse sparse_change sparse_change_lem (omega arith)

encode_candidate_total_example :
    ((c : SmartDeltaCandidate) × (encode_candidate xor old_state longer default_policy ≡ ok c))
    ↔ (AnyLength xor ⊎ (length old_state ≡ length longer))
encode_candidate_total_example = encode_candidate_total xor old_state longer default_policy

sparse-Restores_example :
    Restores tag_sparse (apply_sparse old_state) (encode_sparse old_state new_state) new_state
sparse-Restores_example = sparse-Restores old_state new_state refl (omega arith)

ranges-Restores_example :
    Restores tag_ranges (apply_ranges old_state) (encode_ranges old_state new_state 0) new_state
unfolding encode_ranges put_var_u64 slice?
ranges-Restores_example = ranges-Restores old_state new_state 0 refl (omega arith) (omega arith)

xor-Restores_example :
    Restores tag_xor (apply_xor old_state) (encode_xor old_state new_state) new_state
xor-Restores_example = xor-Restores old_state new_state refl (omega arith)

splice-Restores_example :
    Restores tag_splice (apply_splice old_state) (encode_splice old_state longer) longer
splice-Restores_example = splice-Restores old_state longer (omega arith) (omega arith)

chunks-Restores_example :
    Restores tag_chunks (apply_chunks old_state) (encode_chunks old_state longer 2) longer
unfolding encode_chunks put_var_u64 slice?
chunks-Restores_example =
    chunks-Restores old_state longer 2 (omega arith) (omega arith) (omega arith) (omega arith)

read_var_u64-put_example :
    (read_var_u64 (put_var_u64 (7 ∷ []) 300 ++ (8 ∷ [])) 1
      ≡ ok (300, length (put_var_u64 (7 ∷ []) 300)))
    × (length (put_var_u64 (7 ∷ []) 300) ≤ 11)
read_var_u64-put_example = read_var_u64-put (7 ∷ []) (8 ∷ []) 300 (omega arith)
