-- ===== src/Common/Xor.antt =====
-- Exclusive or undoes itself, on words of every width.
use Prim.Native.Nat.{digits, differ, bit_xor-bitwise}
use mathlib.Core.Path.{◌∙◌, ap₂}
use native.Mathlib.Nat.{pow-suc}
use delta_stream.Common.{
  ℕ, zero, suc, ◌+◌, ◌*◌, ◌/◌, ◌%◌, ◌≤◌, ◌<◌, ◌≡◌, refl, ap, bit_xor, ◌^◌, arith,
}

xor_digits : ℕ → ℕ → ℕ → ℕ
xor_digits fuel a b = digits (λ c. c) differ fuel a b

xor_digits_enough : (f g a b : ℕ) → a ≤ f → a ≤ g → xor_digits f a b ≡ xor_digits g a b
unfolding xor_digits
xor_digits_enough zero zero a b p q = refl
xor_digits_enough zero (suc g) zero b p q = refl
xor_digits_enough zero (suc g) (suc a) b p q = absurd (omega arith)
xor_digits_enough (suc f) zero zero b p q = refl
xor_digits_enough (suc f) zero (suc a) b p q = absurd (omega arith)
xor_digits_enough (suc f) (suc g) zero b p q = refl
xor_digits_enough (suc f) (suc g) (suc a) b p q =
    ap (λ (t : ℕ). t * 2 + differ (suc a % 2) (b % 2))
      (xor_digits_enough f g (suc a / 2) (b / 2) (omega arith) (omega arith))

pub zero-bit_xor : (b : ℕ) → bit_xor 0 b ≡ b
zero-bit_xor b = bit_xor-bitwise 0 b

bit_xor_halves_suc :
    (a b : ℕ) → bit_xor (suc a) b ≡ bit_xor (suc a / 2) (b / 2) * 2 + differ (suc a % 2) (b % 2)
unfolding xor_digits
bit_xor_halves_suc a b = omega (
  arith,
  bit_xor-bitwise (suc a) b,
  bit_xor-bitwise (suc a / 2) (b / 2),
  xor_digits_enough a (suc a / 2) (suc a / 2) (b / 2) (omega arith) (omega arith),
)

differ_digits : (a b : ℕ) → a < 2 → b < 2 → (differ a (differ a b) ≡ b) × (differ a b < 2)
differ_digits zero zero p q = (refl, omega arith)
differ_digits zero (suc zero) p q = (refl, omega arith)
differ_digits (suc zero) zero p q = (refl, omega arith)
differ_digits (suc zero) (suc zero) p q = (refl, omega arith)
differ_digits zero (suc (suc b)) p q = absurd (omega arith)
differ_digits (suc zero) (suc (suc b)) p q = absurd (omega arith)
differ_digits (suc (suc a)) b p q = absurd (omega arith)

bit_xor_undo_fuel : (f a b : ℕ) → a ≤ f → bit_xor a (bit_xor a b) ≡ b
bit_xor_undo_fuel f zero b h = zero-bit_xor (bit_xor 0 b) ∙ zero-bit_xor b
bit_xor_undo_fuel zero (suc a) b h = absurd (omega arith)
bit_xor_undo_fuel (suc f) (suc a) b h =
    let x = bit_xor (suc a) b in
    let q = bit_xor (suc a / 2) (b / 2) in
    let d = differ (suc a % 2) (b % 2) in
    let digit = differ_digits (suc a % 2) (b % 2) (omega arith) (omega arith) in
    let x_eq : x ≡ q * 2 + d = bit_xor_halves_suc a b in
    let half : x / 2 ≡ q = omega arith in
    let low : x % 2 ≡ d = omega arith in
    let ih : bit_xor (suc a / 2) q ≡ b / 2 =
      bit_xor_undo_fuel f (suc a / 2) (b / 2) (omega arith) in
    let upper : bit_xor (suc a / 2) (x / 2) ≡ b / 2 = ap (bit_xor (suc a / 2)) half ∙ ih in
    let lower : differ (suc a % 2) (x % 2) ≡ b % 2 = ap (differ (suc a % 2)) low ∙ digit.0 in
    bit_xor_halves_suc a x ∙ ap₂ (λ (s t : ℕ). s * 2 + t) upper lower ∙ omega arith

-- `a ^ (a ^ b)` is `b`.
pub bit_xor_undo : (a b : ℕ) → bit_xor a (bit_xor a b) ≡ b
bit_xor_undo a b = bit_xor_undo_fuel a a b (omega arith)

-- On single digits `differ` keeps the other digit or turns it round.
differ-zero : (b : ℕ) → b < 2 → differ b 0 ≡ b
differ-zero zero h = refl
differ-zero (suc zero) h = refl
differ-zero (suc (suc b)) h = absurd (omega arith)

differ-one : (b : ℕ) → b < 2 → differ b 1 + b ≡ 1
differ-one zero h = refl
differ-one (suc zero) h = refl
differ-one (suc (suc b)) h = absurd (omega arith)

bit_xor-zero_fuel : (f a : ℕ) → a ≤ f → bit_xor a 0 ≡ a
bit_xor-zero_fuel f zero h = zero-bit_xor 0
bit_xor-zero_fuel zero (suc a) h = absurd (omega arith)
bit_xor-zero_fuel (suc f) (suc a) h = omega (
  arith,
  bit_xor_halves_suc a 0,
  bit_xor-zero_fuel f (suc a / 2) (omega arith),
  differ-zero (suc a % 2) (omega arith),
)

pub bit_xor-zero : (a : ℕ) → bit_xor a 0 ≡ a
bit_xor-zero a = bit_xor-zero_fuel a a (omega arith)

-- With a mask of ones every bit is turned round.
pub bit_xor-ones : (k a mask : ℕ) → a < 2 ^ k → mask + 1 ≡ 2 ^ k → bit_xor a mask + a ≡ mask
bit_xor-ones k zero mask h e = omega (arith, zero-bit_xor mask)
bit_xor-ones zero (suc a) mask h e = absurd (omega arith)
bit_xor-ones (suc k) (suc a) mask h e =
    let p = pow-suc 2 k in
    let half : mask / 2 + 1 ≡ 2 ^ k = omega arith in
    let odd : mask % 2 ≡ 1 = omega arith in
    omega (
      arith,
      bit_xor_halves_suc a mask,
      bit_xor-ones k (suc a / 2) (mask / 2) (omega arith) half,
      differ-one (suc a % 2) (omega arith),
      ap (differ (suc a % 2)) odd,
    )
