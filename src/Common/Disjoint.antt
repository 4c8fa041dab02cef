-- ===== src/Common/Disjoint.antt =====
-- `|` of two words whose bits do not overlap is their sum, at every width.
use Prim.Native.Nat.{digits, bit_or-bitwise}
use native.Mathlib.Nat.{pow-suc}
use delta_stream.Common.{
  ℕ, zero, suc, ◌+◌, ◌*◌, ◌/◌, ◌%◌, ◌^◌, ◌≤◌, ◌<◌, ◌≡◌, refl, ap, max, bit_or, arith,
}

-- The digits that `bit_or` stands for do not depend on fuel that is large enough.
or_digits : ℕ → ℕ → ℕ → ℕ
or_digits fuel a b = digits (λ c. c) max fuel a b

or_digits_enough : (f g a b : ℕ) → a ≤ f → a ≤ g → or_digits f a b ≡ or_digits g a b
unfolding or_digits
or_digits_enough zero zero a b p q = refl
or_digits_enough zero (suc g) zero b p q = refl
or_digits_enough zero (suc g) (suc a) b p q = absurd (omega arith)
or_digits_enough (suc f) zero zero b p q = refl
or_digits_enough (suc f) zero (suc a) b p q = absurd (omega arith)
or_digits_enough (suc f) (suc g) zero b p q = refl
or_digits_enough (suc f) (suc g) (suc a) b p q =
    omega (arith, or_digits_enough f g (suc a / 2) (b / 2) (omega arith) (omega arith))

pub bit_or_halves : (a b : ℕ) → bit_or a b ≡ bit_or (a / 2) (b / 2) * 2 + max (a % 2) (b % 2)
unfolding or_digits
bit_or_halves zero b = omega (arith, bit_or-bitwise 0 b, bit_or-bitwise 0 (b / 2))
bit_or_halves (suc a) b = omega (
  arith,
  bit_or-bitwise (suc a) b,
  bit_or-bitwise (suc a / 2) (b / 2),
  or_digits_enough a (suc a / 2) (suc a / 2) (b / 2) (omega arith) (omega arith),
)

pub zero-bit_or : (b : ℕ) → bit_or 0 b ≡ b
zero-bit_or b = bit_or-bitwise 0 b

-- The lower `k` bits and what stands above them.
pub bit_or_disjoint :
    (k low high : ℕ) → low < 2 ^ k → bit_or low (high * 2 ^ k) ≡ low + high * 2 ^ k
bit_or_disjoint zero low high h = ground (arith, zero-bit_or high)
bit_or_disjoint (suc k) low high h = ground (
  arith,
  bit_or_halves low (high * 2 ^ suc k),
  ap (λ (t : ℕ). high * t) (pow-suc 2 k),
  pow-suc 2 k,
  bit_or_disjoint k (low / 2) high,
)
