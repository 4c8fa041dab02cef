-- ===== src/Binary/Words.antt =====
-- The integers of src/binary.rs: `u128` varints and zigzag. An `i128` is an integer; its 128 bits
-- are its two's complement.
pub mod Laws
use delta_stream.Common.{
  ℕ, zero, suc, ◌+◌, ◌-◌, ◌*◌, ◌/◌, ◌%◌, ◌^◌, List, [], ◌∷◌, ◌++◌, bit_and, bit_or, bit_xor, leb,
  ltb, ◌==◌, if◌then◌else◌,
}
use delta_stream.Common.Bytes.{ℤ, pos, negsuc}
use delta_stream.Varint.{put_var_loop}

abbrev pub u128_max : ℕ
u128_max = 0xffff_ffff_ffff_ffff_ffff_ffff_ffff_ffff

-- `as u128` of an `i128`.
unfoldable pub to_bits : ℤ → ℕ
to_bits (pos n) = n % 2 ^ 128
to_bits (negsuc n) = u128_max - n % 2 ^ 128

-- `as i128` of a `u128`.
unfoldable pub from_bits : ℕ → ℤ
from_bits b = if ltb b (2 ^ 127) then pos b else negsuc (u128_max - b)

-- `value >> 127` repeats the sign bit.
unfoldable pub sign_fill : ℕ → ℕ
sign_fill b = if ltb b (2 ^ 127) then 0 else u128_max

-- `((value << 1) ^ (value >> 127)) as u128`
unfoldable pub zigzag : ℤ → ℕ
unfolding to_bits sign_fill
zigzag value = bit_xor (to_bits value * 2 % 2 ^ 128) (sign_fill (to_bits value))

-- `((value >> 1) as i128) ^ (-((value & 1) as i128))`, on the bits.
unfoldable pub unzigzag : ℕ → ℤ
unfolding from_bits
unzigzag value = from_bits (bit_xor (value / 2) (if value % 2 == 0 then 0 else u128_max))

-- The loop is that of `put_var_u64`; a `u128` has nineteen groups of seven bits at most.
unfoldable pub put_var_u128 : List ℕ → ℕ → List ℕ
unfolding put_var_loop
put_var_u128 out value = put_var_loop 18 out value

unfoldable pub put_var_i128 : List ℕ → ℤ → List ℕ
unfolding put_var_u128 zigzag
put_var_i128 out value = put_var_u128 out (zigzag value)
