-- ===== src/SmartDelta/Dispatch.antt =====
-- `encode_candidates`, `encode_candidate`, `apply` and `kind` of src/smart_delta.rs.
pub mod RoundTrip
pub mod Candidates
use delta_stream.Common.{
  ℕ, suc, Bool, true, false, not, List, [], ◌∷◌, ◌++◌, max, ◌==◌, if◌then◌else◌, length,
}
use delta_stream.Error.{
  DeltaError, invalid_state, invalid_packet, text_num, Result, ok, err, fail_if, ◌>>=◌, ◌>>◌,
}
use delta_stream.SmartDelta.Kind.{
  SmartDeltaKind, SmartDeltaCandidate, SmartDeltaPolicy, sparse, ranges, xor, splice, chunks,
  tag_sparse, tag_ranges, tag_xor, tag_splice, tag_chunks, packet_error,
}
use delta_stream.SmartDelta.Sparse.{encode_sparse, apply_sparse}
use delta_stream.SmartDelta.Ranges.{encode_ranges, apply_ranges}
use delta_stream.SmartDelta.Xor.{encode_xor, apply_xor}
use delta_stream.SmartDelta.Splice.{encode_splice, apply_splice}
use delta_stream.SmartDelta.Chunks.{encode_chunks, apply_chunks}

-- The three formats that want equal lengths, then the two that take any.
unfoldable pub encode_candidates :
    List ℕ → List ℕ → SmartDeltaPolicy → Result (List SmartDeltaCandidate)
encode_candidates previous current policy =
    let same_length =
      if length previous == length current
      then record { kind = sparse; payload = encode_sparse previous current }
        ∷ record { kind = ranges; payload = encode_ranges previous current policy.max_range_gap }
        ∷ record { kind = xor; payload = encode_xor previous current }
        ∷ []
      else [] in
    let any_length : List SmartDeltaCandidate =
      record { kind = splice; payload = encode_splice previous current }
      ∷ record { kind = chunks; payload = encode_chunks previous current (max policy.chunk_size 1) }
      ∷ [] in
    ok (same_length ++ any_length)

unfoldable pub candidate_payload :
    SmartDeltaKind → List ℕ → List ℕ → SmartDeltaPolicy → Result (List ℕ)
candidate_payload sparse previous current policy = do
  fail_if (not (length previous == length current))
      (invalid_state "sparse delta requires equal lengths")
  ok (encode_sparse previous current)
candidate_payload ranges previous current policy = do
  fail_if (not (length previous == length current))
      (invalid_state "range delta requires equal lengths")
  ok (encode_ranges previous current policy.max_range_gap)
candidate_payload xor previous current policy = do
  fail_if (not (length previous == length current))
      (invalid_state "xor delta requires equal lengths")
  ok (encode_xor previous current)
candidate_payload splice previous current policy = ok (encode_splice previous current)
candidate_payload chunks previous current policy =
    ok (encode_chunks previous current (max policy.chunk_size 1))

unfoldable pub encode_candidate :
    SmartDeltaKind → List ℕ → List ℕ → SmartDeltaPolicy → Result SmartDeltaCandidate
unfolding candidate_payload
encode_candidate kind_ previous current policy = do
  payload_ ← candidate_payload kind_ previous current policy
  ok (record { kind = kind_; payload = payload_ })

-- The tag is matched in the order of the source.
unfoldable pub apply : List ℕ → List ℕ → Result (List ℕ)
apply base [] = err (packet_error "empty smart delta")
apply base (tag ∷ rest) =
    if tag == tag_sparse
    then apply_sparse base rest
    else if tag == tag_ranges
    then apply_ranges base rest
    else if tag == tag_xor
    then apply_xor base rest
    else if tag == tag_splice
    then apply_splice base rest
    else if tag == tag_chunks
    then apply_chunks base rest
    else err (invalid_packet (text_num "unknown smart delta kind" tag))

unfoldable pub kind : List ℕ → Result SmartDeltaKind
kind [] = err (packet_error "empty smart delta")
kind (tag ∷ rest) =
    if tag == tag_sparse
    then ok sparse
    else if tag == tag_ranges
    then ok ranges
    else if tag == tag_xor
    then ok xor
    else if tag == tag_splice
    then ok splice
    else if tag == tag_chunks
    then ok chunks
    else err (invalid_packet (text_num "unknown smart delta kind" tag))
