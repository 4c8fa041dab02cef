-- ===== src/Binary/Reader.antt =====
-- `Reader` of src/binary.rs. Its position is passed and returned.
pub mod Laws
use delta_stream.Common.{
  ℕ, ◌+◌, ◌-◌, ◌*◌, ◌%◌, ◌^◌, Bool, true, false, not, ◌&&◌, List, [], ◌∷◌, Option, none, some,
  bit_and, bit_or, length, take, drop, ltb, leb, ◌==◌, if◌then◌else◌, checked_add, get_or, u64_max,
}
use delta_stream.Common.Bytes.{ℤ}
use delta_stream.Error.{
  DeltaError, invalid_packet, text, Result, ok, err, fail_if, ok_or, ◌>>=◌, ◌>>◌,
}
use delta_stream.Packet.Little.{from_le_bytes}
use delta_stream.Binary.Words.{unzigzag}
use delta_stream.Binary.Utf8.{is_utf8}

-- What a read returns: the value and the position behind it.
abbrev pub Read : Type 0 → Type 0
Read A = Result (A × ℕ)

unfoldable pub take_bytes : List ℕ → ℕ → ℕ → Read (List ℕ)
take_bytes bytes at n = do
  end ← ok_or (checked_add at n) (invalid_packet (text "length overflow"))
  fail_if (ltb (length bytes) end) (invalid_packet (text "truncated payload"))
  ok (take (end - at) (drop at bytes), end)

unfoldable pub read_u16 : List ℕ → ℕ → Read ℕ
read_u16 bytes at = do taken ← take_bytes bytes at 2; ok (from_le_bytes taken.0, taken.1)

unfoldable pub read_f32 : List ℕ → ℕ → Read ℕ
read_f32 bytes at = do taken ← take_bytes bytes at 4; ok (from_le_bytes taken.0, taken.1)

-- The loop of `var_u128` on the bytes from `at` on: `self.u8()?` takes the head, and fails where
-- there is none. A left shift of a `u128` drops the bits above the word.
unfoldable pub var_u128_loop : List ℕ → ℕ → ℕ → ℕ → Read ℕ
var_u128_loop [] at value shift = err (invalid_packet (text "truncated payload"))
var_u128_loop (byte ∷ bytes) at value shift =
    let value' = bit_or value (bit_and byte 0x7f * 2 ^ shift % 2 ^ 128) in
    let more = var_u128_loop bytes (at + 1) value' (shift + 7) in
    if leb 128 shift && not (bit_and byte 0x7f == 0)
    then err (invalid_packet (text "varint overflow"))
    else if bit_and byte 0x80 == 0
    then ok (value', at + 1)
    else if ltb 127 (shift + 7)
    then err (invalid_packet (text "varint overflow"))
    else more

unfoldable pub var_u128 : List ℕ → ℕ → Read ℕ
unfolding var_u128_loop
var_u128 bytes at = var_u128_loop (drop at bytes) at 0 0

unfoldable pub var_i128 : List ℕ → ℕ → Read ℤ
unfolding unzigzag
var_i128 bytes at = do read ← var_u128 bytes at; ok (unzigzag read.0, read.1)

unfoldable pub read_string : List ℕ → ℕ → Read (List ℕ)
read_string bytes at = do
  len ← var_u128 bytes at
  fail_if (ltb u64_max len.0) (invalid_packet (text "string length overflow"))
  taken ← take_bytes bytes len.1 len.0
  fail_if (not (is_utf8 taken.0)) (invalid_packet (text "invalid UTF-8"))
  ok taken

unfoldable pub finish : List ℕ → ℕ → Result (Unit {0})
finish bytes at =
    if at == length bytes then ok tt else err (invalid_packet (text "trailing payload bytes"))
