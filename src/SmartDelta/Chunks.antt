-- ===== src/SmartDelta/Chunks.antt =====
-- `encode_chunks` and `apply_chunks` of src/smart_delta.rs: the chunks of the current state that
-- the previous state does not have in the same place. The states may differ in length.
pub mod RoundTrip
pub mod Resize
pub mod Scan
use delta_stream.Common.{
  ℕ, zero, suc, ◌+◌, ◌-◌, ◌*◌, ◌/◌, ◌≡◌, refl, Bool, true, false, not, ◌&&◌, List, [], ◌∷◌, ◌++◌,
  Option, none, some, min, ◌==◌, if◌then◌else◌, length, take, drop, slice?, checked_add,
  checked_mul,
}
use delta_stream.Error.{Result, ok, err, fail_if, ok_or, ◌>>=◌, ◌>>◌}
use delta_stream.Common.Bytes.{same_bytes}
use delta_stream.Varint.{put_var_u64, read_var_u64}
use delta_stream.SmartDelta.Kind.{tag_chunks, packet_error, ensure_consumed}
use delta_stream.SmartDelta.Buffer.{copy_into?, resize}

-- `previous_chunk == Some(current_chunk)`
pub is_some_bytes : Option (List ℕ) → List ℕ → Bool
unfolding same_bytes
is_some_bytes none bs = false
is_some_bytes (some as') bs = same_bytes as' bs

pub div_ceil : ℕ → ℕ → ℕ
div_ceil n d = (n + d - 1) / d

-- `for chunk in 0..chunks`, with `left` chunks to go.
pub changed_chunks : ℕ → ℕ → List ℕ → List ℕ → ℕ → List (ℕ × List ℕ)
changed_chunks zero chunk previous current chunk_size = []
changed_chunks (suc left) chunk previous current chunk_size =
    let start = chunk * chunk_size in
    let end = min (start + chunk_size) (length current) in
    let current_chunk = take (end - start) (drop start current) in
    let previous_chunk = slice? previous start end in
    let later = changed_chunks left (chunk + 1) previous current chunk_size in
    if not (is_some_bytes previous_chunk current_chunk)
    then (chunk, current_chunk) ∷ later
    else later

-- The loop over the changed chunks; `n` counts the rounds.
pub put_chunks : List (ℕ × List ℕ) → ℕ → ℕ → List ℕ → List ℕ
put_chunks [] n previous_chunk_index out = out
put_chunks ((chunk, bytes) ∷ rest) n previous_chunk_index out =
    let index_delta = if n == 0 then chunk else chunk - previous_chunk_index in
    put_chunks rest (n + 1) chunk
      (put_var_u64 (put_var_u64 out index_delta) (length bytes) ++ bytes)

unfoldable pub encode_chunks : List ℕ → List ℕ → ℕ → List ℕ
unfolding changed_chunks is_some_bytes div_ceil put_chunks
encode_chunks previous current chunk_size =
    let chunks = div_ceil (length current) chunk_size in
    let changed = changed_chunks chunks 0 previous current chunk_size in
    let out = put_var_u64 (tag_chunks ∷ []) (length current) in
    let out = put_var_u64 out chunk_size in
    let out = put_var_u64 out (length changed) in put_chunks changed 0 0 out

-- `for n in 0..count`, with `left` rounds to go; the buffer and the cursor at the end.
pub apply_chunk_loop : ℕ → ℕ → ℕ → List ℕ → ℕ → List ℕ → ℕ → Result (List ℕ × ℕ)
apply_chunk_loop zero n chunk_size bytes cursor out previous_chunk = ok (out, cursor)
apply_chunk_loop (suc left) n chunk_size bytes cursor out previous_chunk = do
  (delta, cursor) ← read_var_u64 bytes cursor
  chunk ←
      if n == 0
      then ok delta
      else ok_or (checked_add previous_chunk delta) (packet_error "chunk index overflow")
  (len, cursor) ← read_var_u64 bytes cursor
  start ← ok_or (checked_mul chunk chunk_size) (packet_error "chunk offset overflow")
  end ← ok_or (checked_add start len) (packet_error "chunk length overflow")
  src_end ← ok_or (checked_add cursor len) (packet_error "chunk payload overflow")
  src ← ok_or (slice? bytes cursor src_end) (packet_error "truncated chunk payload")
  out ← ok_or (copy_into? out start end src) (packet_error "chunk out of bounds")
  apply_chunk_loop left (n + 1) chunk_size bytes src_end out chunk

-- `resize` is taken to succeed; the source panics where the announced length exceeds `isize::MAX`.
unfoldable pub apply_chunks : List ℕ → List ℕ → Result (List ℕ)
unfolding apply_chunk_loop
apply_chunks base bytes = do
  (new_len, cursor) ← read_var_u64 bytes 0
  (chunk_size, cursor) ← read_var_u64 bytes cursor
  fail_if (chunk_size == 0) (packet_error "zero chunk size")
  (count, cursor) ← read_var_u64 bytes cursor
  (out, cursor) ← apply_chunk_loop count 0 chunk_size bytes cursor (resize base new_len) 0
  ensure_consumed bytes cursor
  ok out
