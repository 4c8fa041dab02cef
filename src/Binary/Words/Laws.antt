-- ===== src/Binary/Words/Laws.antt =====
-- Zigzag loses nothing, and what the varint writer appends.
use delta_stream.Common.{ℕ, ◌+◌, ◌-◌, ◌*◌, ◌%◌, ◌^◌, ◌<◌, ◌≡◌, ap, ◌∙◌, List, ◌++◌, arith}
use delta_stream.Common.Bytes.{ℤ, pos, negsuc}
use delta_stream.Common.Xor.{bit_xor-zero, bit_xor-ones}
use delta_stream.Varint.RoundTrip.{groups, put_var_loop-groups}
use delta_stream.Binary.Words.{
  u128_max, to_bits, from_bits, sign_fill, zigzag, unzigzag, put_var_u128,
}

-- The range of an `i128`.
abbrev pub IsI128 : ℤ → Type 0
IsI128 (pos n) = n < 2 ^ 127
IsI128 (negsuc n) = n < 2 ^ 127

-- The bits of an `i128` fit, and give it back.
pub to_bits-lt : (v : ℤ) → to_bits v < 2 ^ 128
unfolding to_bits
to_bits-lt (pos n) = omega arith
to_bits-lt (negsuc n) = omega arith

pub from_bits-to_bits : (v : ℤ) → IsI128 v → from_bits (to_bits v) ≡ v
unfolding to_bits from_bits
from_bits-to_bits (pos n) h = ground arith
from_bits-to_bits (negsuc n) h = ground arith

-- A nonnegative integer is doubled, a negative one is mirrored to the odd numbers.
zigzag_pos : (n : ℕ) → n < 2 ^ 127 → zigzag (pos n) ≡ n * 2
unfolding zigzag to_bits sign_fill
zigzag_pos n h = ground (arith, bit_xor-zero (n * 2))

zigzag_negsuc : (n : ℕ) → n < 2 ^ 127 → zigzag (negsuc n) ≡ n * 2 + 1
unfolding zigzag to_bits sign_fill
zigzag_negsuc n h = ground (arith, bit_xor-ones 128 ((u128_max - n) * 2 % 2 ^ 128) u128_max)

unzigzag_even : (n : ℕ) → n < 2 ^ 127 → unzigzag (n * 2) ≡ pos n
unfolding unzigzag from_bits
unzigzag_even n h = ground (arith, bit_xor-zero n)

unzigzag_odd : (n : ℕ) → n < 2 ^ 127 → unzigzag (n * 2 + 1) ≡ negsuc n
unfolding unzigzag from_bits
unzigzag_odd n h = ground (arith, bit_xor-ones 128 n u128_max)

pub unzigzag-zigzag : (v : ℤ) → IsI128 v → unzigzag (zigzag v) ≡ v
unzigzag-zigzag (pos n) h = ap unzigzag (zigzag_pos n h) ∙ unzigzag_even n h
unzigzag-zigzag (negsuc n) h = ap unzigzag (zigzag_negsuc n h) ∙ unzigzag_odd n h

pub zigzag-lt : (v : ℤ) → IsI128 v → zigzag v < 2 ^ 128
zigzag-lt (pos n) h = omega (arith, zigzag_pos n h)
zigzag-lt (negsuc n) h = omega (arith, zigzag_negsuc n h)

-- The bytes that a `u128` takes.
unfoldable pub wide_bytes : ℕ → List ℕ
wide_bytes v = groups 18 v

pub put_var_u128_lem :
    (out : List ℕ) (v : ℕ) → v < 2 ^ 128 → put_var_u128 out v ≡ out ++ wide_bytes v
unfolding put_var_u128 wide_bytes
put_var_u128_lem out v h = put_var_loop-groups 18 out v (omega arith)
