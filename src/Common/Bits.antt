-- ===== src/Common/Bits.antt =====
-- Masks and exclusive or on bytes as arithmetic; each fact is a table checked by evaluation.
use Prim.Native.Nat.{ℕ, zero, suc, ◌+◌, ◌*◌, ◌/◌, ◌%◌, ◌^◌, ◌<◌, bit_and, bit_or}
use mathlib.Core.Path.{◌≡◌, refl}
use mathlib.Core.Bool.{Bool, true, ◌&&◌}
use native.Mathlib.Omega.{arith}
use delta_stream.Common.Tests.{◌==◌, ==_iff}

-- The test holds for every number below the bound.
holds_below : (ℕ → Bool) → ℕ → Bool
holds_below test zero = true
holds_below test (suc bound) = holds_below test bound && test bound

holds_below-lt :
    (test : ℕ → Bool) (b bound : ℕ) → b < bound → holds_below test bound ≡ true → test b ≡ true
unfolding holds_below
holds_below-lt test b zero lt all = absurd (omega arith)
holds_below-lt test b (suc bound) lt all = ground (arith, holds_below-lt test b bound)

low_bits_table : holds_below (λ b. bit_and b 0x7f == b % 128) 256 ≡ true
unfolding holds_below
low_bits_table = refl

top_bit_table : holds_below (λ b. bit_and b 0x80 == b / 128 * 128) 256 ≡ true
unfolding holds_below
top_bit_table = refl

set_top_bit_table : holds_below (λ b. bit_or b 0x80 == b + 128) 128 ≡ true
unfolding holds_below
set_top_bit_table = refl

pub low_bits : (b : ℕ) → b < 256 → bit_and b 0x7f ≡ b % 128
low_bits b h = (==_iff _ _).0 (holds_below-lt _ b 256 h low_bits_table)

pub top_bit : (b : ℕ) → b < 256 → bit_and b 0x80 ≡ b / 128 * 128
top_bit b h = (==_iff _ _).0 (holds_below-lt _ b 256 h top_bit_table)

pub set_top_bit : (b : ℕ) → b < 128 → bit_or b 0x80 ≡ b + 128
set_top_bit b h = (==_iff _ _).0 (holds_below-lt _ b 128 h set_top_bit_table)

one_bit_table :
    holds_below (λ k. holds_below (λ m. bit_and m (2 ^ k) == m / 2 ^ k % 2 * 2 ^ k) 1024) 10 ≡ true
unfolding holds_below
one_bit_table = refl

pub one_bit : (k m : ℕ) → k < 10 → m < 1024 → bit_and m (2 ^ k) ≡ m / 2 ^ k % 2 * 2 ^ k
one_bit k m hk hm =
    (==_iff _ _).0 (holds_below-lt _ m 1024 hm (holds_below-lt _ k 10 hk one_bit_table))
