-- ===== src/SmartDelta/Splice.antt =====
-- `encode_splice` and `apply_splice` of src/smart_delta.rs: a common prefix, a common suffix, and
-- the bytes between them.
pub mod Scan
pub mod RoundTrip
use delta_stream.Common.{
  ℕ, zero, suc, ◌+◌, ◌-◌, ◌≡◌, refl, Bool, not, ◌||◌, List, [], ◌∷◌, ◌++◌, min, none, some, ◌==◌,
  ltb, if◌then◌else◌, length, get_or, take, drop, slice?, checked_add,
}
use mathlib.Core.Option
use delta_stream.Error.{Result, ok, err, fail_if, ok_or, ◌>>=◌, ◌>>◌}
use delta_stream.Varint.{put_var_u64, read_var_u64}
use delta_stream.SmartDelta.Kind.{tag_splice, packet_error, ensure_consumed}

-- `bytes[i]`; the callers' guards keep `i` in range.
abbrev pub byte_at : List ℕ → ℕ → ℕ
byte_at bytes i = get_or bytes i 0

-- `while prefix < max_prefix && previous[prefix] == current[prefix]`, with `max_prefix - prefix`
-- rounds left.
pub prefix_loop : ℕ → List ℕ → List ℕ → ℕ → ℕ
prefix_loop zero previous current prefix = prefix
prefix_loop (suc left) previous current prefix =
    let more = prefix_loop left previous current (prefix + 1) in
    if byte_at previous prefix == byte_at current prefix then more else prefix

-- The same from the ends, with `max_suffix - suffix` rounds left.
pub suffix_loop : ℕ → List ℕ → List ℕ → ℕ → ℕ
suffix_loop zero previous current suffix = suffix
suffix_loop (suc left) previous current suffix =
    let more = suffix_loop left previous current (suffix + 1) in
    if byte_at previous (length previous - 1 - suffix)
      == byte_at current (length current - 1 - suffix)
    then more
    else suffix

pub common_prefix : List ℕ → List ℕ → ℕ
unfolding prefix_loop
common_prefix previous current =
    prefix_loop (min (length previous) (length current)) previous current 0

pub common_suffix : List ℕ → List ℕ → ℕ → ℕ
unfolding suffix_loop
common_suffix previous current prefix =
    suffix_loop (min (length previous - prefix) (length current - prefix)) previous current 0

unfoldable pub encode_splice : List ℕ → List ℕ → List ℕ
unfolding common_prefix common_suffix
encode_splice previous current =
    let prefix = common_prefix previous current in
    let suffix = common_suffix previous current prefix in
    let middle_end = length current - suffix in
    let middle = take (middle_end - prefix) (drop prefix current) in
    let out = put_var_u64 (tag_splice ∷ []) (length current) in
    let out = put_var_u64 out prefix in
    let out = put_var_u64 out suffix in let out = put_var_u64 out (length middle) in out ++ middle

unfoldable pub apply_splice : List ℕ → List ℕ → Result (List ℕ)
apply_splice base bytes = do
  (new_len, cursor) ← read_var_u64 bytes 0
  (prefix, cursor) ← read_var_u64 bytes cursor
  (suffix, cursor) ← read_var_u64 bytes cursor
  (middle_len, cursor) ← read_var_u64 bytes cursor
  fail_if (ltb (length base) prefix || ltb (length base - prefix) suffix)
      (packet_error "splice base bounds invalid")
  middle_end ← ok_or (checked_add cursor middle_len) (packet_error "splice overflow")
  middle ← ok_or (slice? bytes cursor middle_end) (packet_error "truncated splice payload")
  ensure_consumed bytes middle_end
  expected_len ←
      ok_or (Option.bind (checked_add prefix middle_len) (λ v. checked_add v suffix))
        (packet_error "splice length overflow")
  fail_if (not (expected_len == new_len)) (packet_error "splice new length mismatch")
  ok (take prefix base ++ (middle ++ drop (length base - suffix) base))
