-- ===== src/SmartDelta/Ranges.antt =====
-- `encode_ranges` and `apply_ranges` of src/smart_delta.rs: the changed ranges of a state of the
-- same length, where ranges that stand no further apart than `max_gap` are joined.
pub mod Scan
pub mod RoundTrip
use delta_stream.Common.{
  ℕ, zero, suc, ◌+◌, ◌-◌, ◌≡◌, refl, Bool, true, false, not, List, [], ◌∷◌, ◌++◌, ltb, ◌==◌,
  if◌then◌else◌, length, take, drop, get_or, slice?, checked_add,
}
use delta_stream.Error.{Result, ok, err, fail_if, ok_or, ◌>>=◌, ◌>>◌}
use delta_stream.Varint.{put_var_u64, read_var_u64}
use delta_stream.SmartDelta.Kind.{tag_ranges, packet_error, ensure_consumed}
use delta_stream.SmartDelta.Buffer.{copy_into?}

-- The inner `while i < current.len()`, with `current.len() - i` rounds left; the last place that
-- belongs to the range. Both states have the length of `current`, so the indices are in range.
pub extend_range : ℕ → List ℕ → List ℕ → ℕ → ℕ → ℕ → ℕ
extend_range zero previous current max_gap i last_changed = last_changed
extend_range (suc left) previous current max_gap i last_changed =
    let changed = extend_range left previous current max_gap (i + 1) i in
    let same = extend_range left previous current max_gap (i + 1) last_changed in
    if not (get_or previous i 0 == get_or current i 0)
    then changed
    else if ltb max_gap (i - last_changed)
    then last_changed
    else same

-- The outer `while i < current.len()`: every round moves `i` on, so `current.len()` rounds are
-- enough for the loop from 0.
pub find_ranges : ℕ → List ℕ → List ℕ → ℕ → ℕ → List (ℕ × ℕ)
find_ranges zero previous current max_gap i = []
find_ranges (suc rounds) previous current max_gap i =
    let skip = find_ranges rounds previous current max_gap (i + 1) in
    let last_changed = extend_range (length current - (i + 1)) previous current max_gap (i + 1) i in
    let later = find_ranges rounds previous current max_gap (last_changed + 1) in
    if ltb i (length current)
    then if get_or previous i 0 == get_or current i 0 then skip else (i, last_changed + 1) ∷ later
    else []

pub put_ranges : List (ℕ × ℕ) → List ℕ → ℕ → List ℕ → List ℕ
put_ranges [] current previous_end out = out
put_ranges ((start, end) ∷ rest) current previous_end out =
    let out' = put_var_u64 (put_var_u64 out (start - previous_end)) (end - start) in
    put_ranges rest current end (out' ++ take (end - start) (drop start current))

unfoldable pub encode_ranges : List ℕ → List ℕ → ℕ → List ℕ
unfolding extend_range find_ranges put_ranges
encode_ranges previous current max_gap =
    let ranges = find_ranges (length current) previous current max_gap 0 in
    let out = put_var_u64 (tag_ranges ∷ []) (length current) in
    let out = put_var_u64 out (length ranges) in put_ranges ranges current 0 out

-- `for _ in 0..count`, with `left` rounds to go; the buffer and the cursor at the end.
pub apply_range_loop : ℕ → List ℕ → ℕ → List ℕ → ℕ → Result (List ℕ × ℕ)
apply_range_loop zero bytes cursor out previous_end = ok (out, cursor)
apply_range_loop (suc left) bytes cursor out previous_end = do
  (gap, cursor) ← read_var_u64 bytes cursor
  (len, cursor) ← read_var_u64 bytes cursor
  start ← ok_or (checked_add previous_end gap) (packet_error "range index overflow")
  end ← ok_or (checked_add start len) (packet_error "range length overflow")
  src_end ← ok_or (checked_add cursor len) (packet_error "range payload overflow")
  src ← ok_or (slice? bytes cursor src_end) (packet_error "truncated range bytes")
  out ← ok_or (copy_into? out start end src) (packet_error "range out of bounds")
  apply_range_loop left bytes src_end out end

unfoldable pub apply_ranges : List ℕ → List ℕ → Result (List ℕ)
unfolding apply_range_loop
apply_ranges base bytes = do
  (new_len, cursor) ← read_var_u64 bytes 0
  fail_if (not (new_len == length base)) (packet_error "range delta length mismatch")
  (count, cursor) ← read_var_u64 bytes cursor
  (out, cursor) ← apply_range_loop count bytes cursor base 0
  ensure_consumed bytes cursor
  ok out
