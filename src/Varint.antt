-- ===== src/Varint.antt =====
-- `put_var_u64` and `read_var_u64` of src/smart_delta.rs: unsigned 64-bit integers in groups of
-- seven bits, lowest first, with the top bit set on every byte but the last.
pub mod RoundTrip
use delta_stream.Common.{
  ℕ, zero, suc, ◌+◌, ◌*◌, ◌/◌, ◌%◌, ◌^◌, ◌≡◌, refl, Bool, true, false, List, [], ◌∷◌, ◌++◌, bit_and,
  bit_or, ltb, leb, ◌==◌, if◌then◌else◌, drop, none, some,
}
use delta_stream.Error.{DeltaError, invalid_packet, text, Result, ok, err}

-- The loop `while value >= 0x80`, on the rounds that a `u64` can take at most: ten groups of
-- seven bits. `value as u8` is the remainder by 256.
unfoldable pub put_var_loop : ℕ → List ℕ → ℕ → List ℕ
put_var_loop zero out value = out ++ (value % 256 ∷ [])
put_var_loop (suc rounds) out value =
    let more =
      put_var_loop rounds (out ++ (bit_or (bit_and (value % 256) 0x7f) 0x80 ∷ []))
        (value / 2 ^ 7) in
    if leb 0x80 value then more else out ++ (value % 256 ∷ [])

-- A `u64` is below 2 ^ 64, so after nine shifts by seven it is below 2 and the loop has ended.
unfoldable pub put_var_u64 : List ℕ → ℕ → List ℕ
unfolding put_var_loop
put_var_u64 out value = put_var_loop 9 out value

-- The loop of `read_var_u64` on the bytes from `cursor` on: `bytes.get(*cursor)` is the head, and
-- `*cursor += 1` goes to the tail. A left shift of a `u64` drops the bits above the word.
pub read_var_loop : List ℕ → ℕ → ℕ → ℕ → Result (ℕ × ℕ)
read_var_loop [] cursor value shift = err (invalid_packet (text "truncated varint"))
read_var_loop (byte ∷ bytes) cursor value shift =
    let cursor' = cursor + 1 in
    let value' = bit_or value (bit_and byte 0x7f * 2 ^ shift % 2 ^ 64) in
    let more = read_var_loop bytes cursor' value' (shift + 7) in
    if bit_and byte 0x80 == 0
    then ok (value', cursor')
    else if leb 64 (shift + 7)
    then err (invalid_packet (text "varint overflow"))
    else more

-- The value and the cursor behind it.
unfoldable pub read_var_u64 : List ℕ → ℕ → Result (ℕ × ℕ)
unfolding read_var_loop
read_var_u64 bytes cursor = read_var_loop (drop cursor bytes) cursor 0 0

put_300 : put_var_u64 (7 ∷ []) 300 ≡ 7 ∷ 0xac ∷ 0x02 ∷ []
unfolding put_var_u64
put_300 = refl

read_300 : read_var_u64 (7 ∷ 0xac ∷ 0x02 ∷ 9 ∷ []) 1 ≡ ok (300, 3)
unfolding read_var_u64
read_300 = refl
