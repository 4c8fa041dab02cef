-- ===== src/SmartDelta/Sparse.antt =====
-- `encode_sparse` and `apply_sparse` of src/smart_delta.rs: the changed bytes of a state of the
-- same length, each with the distance from the one before it.
pub mod RoundTrip
use delta_stream.Common.{
  ℕ, zero, suc, ◌+◌, ◌-◌, ◌≡◌, refl, Bool, not, List, [], ◌∷◌, ◌++◌, ◌==◌, if◌then◌else◌, length,
  get_elem?, checked_add,
}
use delta_stream.Error.{Result, ok, err, fail_if, ok_or, ◌>>=◌, ◌>>◌}
use delta_stream.Varint.{put_var_u64, read_var_u64}
use delta_stream.SmartDelta.Kind.{tag_sparse, packet_error, ensure_consumed}
use delta_stream.SmartDelta.Buffer.{set?}

-- `zip`, `enumerate` and `filter_map`, from index `i` on: the changed places and their new bytes.
pub changes : ℕ → List ℕ → List ℕ → List (ℕ × ℕ)
changes i [] bs = []
changes i (a ∷ as') [] = []
changes i (a ∷ as') (b ∷ bs) =
    let later = changes (i + 1) as' bs in if a == b then later else (i, b) ∷ later

-- The loop over the changes; `n` counts the rounds.
pub put_changes : List (ℕ × ℕ) → ℕ → ℕ → List ℕ → List ℕ
put_changes [] n previous_index out = out
put_changes ((index, value) ∷ rest) n previous_index out =
    let delta = if n == 0 then index else index - previous_index in
    put_changes rest (n + 1) index (put_var_u64 out delta ++ (value ∷ []))

unfoldable pub encode_sparse : List ℕ → List ℕ → List ℕ
unfolding changes put_changes
encode_sparse previous current =
    let changed = changes 0 previous current in
    let out = put_var_u64 (tag_sparse ∷ []) (length current) in
    let out = put_var_u64 out (length changed) in put_changes changed 0 0 out

-- `for n in 0..count`, with `left` rounds to go; the buffer and the cursor at the end.
pub apply_changes : ℕ → ℕ → List ℕ → ℕ → List ℕ → ℕ → Result (List ℕ × ℕ)
apply_changes zero n bytes cursor out previous_index = ok (out, cursor)
apply_changes (suc left) n bytes cursor out previous_index = do
  (delta, cursor) ← read_var_u64 bytes cursor
  index ←
      if n == 0
      then ok delta
      else ok_or (checked_add previous_index delta) (packet_error "sparse index overflow")
  value ← ok_or (get_elem? bytes cursor) (packet_error "truncated sparse value")
  let cursor = cursor + 1
  out ← ok_or (set? out index value) (packet_error "sparse index out of range")
  apply_changes left (n + 1) bytes cursor out index

unfoldable pub apply_sparse : List ℕ → List ℕ → Result (List ℕ)
unfolding apply_changes
apply_sparse base bytes = do
  (new_len, cursor) ← read_var_u64 bytes 0
  fail_if (not (new_len == length base)) (packet_error "sparse delta length mismatch")
  (count, cursor) ← read_var_u64 bytes cursor
  (out, cursor) ← apply_changes count 0 bytes cursor base 0
  ensure_consumed bytes cursor
  ok out
