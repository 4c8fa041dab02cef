-- ===== src/Common/Bytes.antt =====
-- Equality of byte strings, and signed integers.
use delta_stream.Common.{
  ℕ, ◌-◌, ◌≡◌, refl, Bool, true, false, ◌&&◌, List, [], ◌∷◌, ◌==◌, leb, if◌then◌else◌, arith, ◌⊎◌,
  inl, inr, Bool-cases,
}

unfoldable pub same_bytes : List ℕ → List ℕ → Bool
same_bytes [] [] = true
same_bytes [] (b ∷ bs) = false
same_bytes (a ∷ as') [] = false
same_bytes (a ∷ as') (b ∷ bs) = (a == b) && same_bytes as' bs

pub same_bytes→eq : (xs ys : List ℕ) → same_bytes xs ys ≡ true → xs ≡ ys
unfolding same_bytes
same_bytes→eq [] [] h = refl
same_bytes→eq [] (y ∷ ys) h = cc
same_bytes→eq (x ∷ xs) [] h = cc
same_bytes→eq (x ∷ xs) (y ∷ ys) h = ground (arith, same_bytes→eq xs ys)

pub same_bytes_refl : (xs : List ℕ) → same_bytes xs xs ≡ true
unfolding same_bytes
same_bytes_refl [] = refl
same_bytes_refl (x ∷ xs) = ground (arith, same_bytes_refl xs)

pub same_bytes-cases :
    (xs ys : List ℕ)
    → ((same_bytes xs ys ≡ true) × (xs ≡ ys)) ⊎ ((same_bytes xs ys ≡ false) × (¬ (xs ≡ ys)))
same_bytes-cases xs ys = elim (Bool-cases (same_bytes xs ys)) [
  | inl e ↦ inl (e, same_bytes→eq xs ys e)
  | inr e ↦ inr (e, λ p. cc (same_bytes_refl ys, e, p))
]

-- `negsuc n` is -(n + 1).
pub data ℤ : Type 0 where
  pos negsuc : ℕ → ℤ

-- a - b, as an integer.
unfoldable pub minus : ℕ → ℕ → ℤ
minus a b = if leb b a then pos (a - b) else negsuc (b - a - 1)
