-- ===== src/Common/Tests.antt =====
-- Boolean tests on the native numbers, the conditional, and 64-bit arithmetic of the source.
use Prim.Native.Nat.{ℕ, ◌+◌, ◌-◌, ◌*◌, ◌≤◌, ◌<◌, compare, Ordering, min}
use mathlib.Core.Path.{◌≡◌, refl}
use mathlib.Core.Logic.{◌↔◌, ◌⊎◌, inl, inr}
use mathlib.Core.Bool.{Bool, true, false}
use mathlib.Core.Option.{Option, none, some}
use native.Mathlib.Omega.{arith}

abbrev pub ltb : ℕ → ℕ → Bool
ltb a b = elim (compare a b) [ Ordering.lt ↦ true | _ ↦ false ]

abbrev pub leb : ℕ → ℕ → Bool
leb a b = elim (compare a b) [ Ordering.gt ↦ false | _ ↦ true ]

infix 50 ◌==◌
abbrev pub ◌==◌ : ℕ → ℕ → Bool
a == b = elim (compare a b) [ Ordering.eq ↦ true | _ ↦ false ]

infix 1 if◌then◌else◌
abbrev pub if◌then◌else◌ {ℓ} : {A : Type ℓ} → Bool → A → A → A
if true then x else y = x
if false then x else y = y

pub ==_iff : (a b : ℕ) → ((a == b) ≡ true) ↔ (a ≡ b)
==_iff a b = ground arith

pub ==_refl : (a : ℕ) → (a == a) ≡ true
==_refl a = ground arith

-- To split on a computed value and keep the equation.
pub Bool-cases : (b : Bool) → (b ≡ true) ⊎ (b ≡ false)
Bool-cases true = inl refl
Bool-cases false = inr refl

pub Option-cases {ℓ} : {A : Type ℓ} (o : Option A) → (o ≡ none) ⊎ ((a : A) × (o ≡ some a))
Option-cases none = inl refl
Option-cases (some a) = inr (a, refl)

-- `usize` and `u64` are 64 bits wide.
abbrev pub u64_max : ℕ
u64_max = 0xffff_ffff_ffff_ffff

abbrev pub IsU64 : ℕ → Type 0
IsU64 n = n ≤ u64_max

-- A slice or a `Vec` holds `isize::MAX` bytes at most.
abbrev pub isize_max : ℕ
isize_max = 0x7fff_ffff_ffff_ffff

abbrev pub IsByte : ℕ → Type 0
IsByte b = b < 256

abbrev pub saturating_add : ℕ → ℕ → ℕ
saturating_add a b = min (a + b) u64_max

-- `saturating_sub` is the subtraction on ℕ, which stops at 0.
abbrev pub saturating_sub : ℕ → ℕ → ℕ
saturating_sub a b = a - b

unfoldable pub checked_add : ℕ → ℕ → Option ℕ
checked_add a b = if leb (a + b) u64_max then some (a + b) else none

unfoldable pub checked_mul : ℕ → ℕ → Option ℕ
checked_mul a b = if leb (a * b) u64_max then some (a * b) else none

pub checked_add-some : (a b : ℕ) → a + b ≤ u64_max → checked_add a b ≡ some (a + b)
unfolding checked_add
checked_add-some a b h = ground arith

pub checked_add-none : (a b : ℕ) → u64_max < a + b → checked_add a b ≡ none
unfolding checked_add
checked_add-none a b h = ground arith

pub checked_mul-some : (a b : ℕ) → a * b ≤ u64_max → checked_mul a b ≡ some (a * b)
unfolding checked_mul
checked_mul-some a b h = ground arith

pub checked_mul_inv : (a b n : ℕ) → checked_mul a b ≡ some n → n ≡ a * b
unfolding checked_mul
checked_mul_inv a b n h = ground arith

pub ltb-eq-false : (a b : ℕ) → b ≤ a → ltb a b ≡ false
ltb-eq-false a b h = ground arith

pub ltb-eq-true : (a b : ℕ) → a < b → ltb a b ≡ true
ltb-eq-true a b h = ground arith

pub leb-eq-true : (a b : ℕ) → a ≤ b → leb a b ≡ true
leb-eq-true a b h = ground arith

pub leb-eq-false : (a b : ℕ) → b < a → leb a b ≡ false
leb-eq-false a b h = ground arith

pub ==-eq-true : (a b : ℕ) → a ≡ b → (a == b) ≡ true
==-eq-true a b h = ground arith

pub ==-eq-false : (a b : ℕ) → ¬ (a ≡ b) → (a == b) ≡ false
==-eq-false a b h = ground arith

pub leq-cases : (a b : ℕ) → (a ≤ b) ⊎ (b < a)
leq-cases a b = omega arith
