-- ===== src/Packet/Little.antt =====
-- `to_le_bytes` and `from_le_bytes` on words of any width.
use native.Mathlib.Nat.{pow-suc}
use delta_stream.Common.{
  ℕ, zero, suc, ◌+◌, ◌*◌, ◌/◌, ◌%◌, ◌^◌, ◌<◌, ◌≡◌, refl, ap, ap₂, ◌∙◌, List, [], ◌∷◌, length, All,
  IsByte, arith,
}

-- The lowest `k` bytes of a word, lowest first.
unfoldable pub to_le_bytes : ℕ → ℕ → List ℕ
to_le_bytes zero n = []
to_le_bytes (suc k) n = n % 256 ∷ to_le_bytes k (n / 256)

unfoldable pub from_le_bytes : List ℕ → ℕ
from_le_bytes [] = 0
from_le_bytes (b ∷ bytes) = b + 256 * from_le_bytes bytes

pub length-to_le_bytes : (k n : ℕ) → length (to_le_bytes k n) ≡ k
unfolding to_le_bytes
length-to_le_bytes zero n = refl
length-to_le_bytes (suc k) n = ap suc (length-to_le_bytes k (n / 256))

pub to_le_bytes-IsByte : (k n : ℕ) → All IsByte (to_le_bytes k n)
unfolding to_le_bytes
to_le_bytes-IsByte zero n = tt
to_le_bytes-IsByte (suc k) n = (omega arith, to_le_bytes-IsByte k (n / 256))

pub from_le_bytes-to_le_bytes : (k n : ℕ) → n < 256 ^ k → from_le_bytes (to_le_bytes k n) ≡ n
unfolding to_le_bytes from_le_bytes
from_le_bytes-to_le_bytes zero n h = omega arith
from_le_bytes-to_le_bytes (suc k) n h =
    let e = pow-suc 256 k in
    let ih = from_le_bytes-to_le_bytes k (n / 256) (omega arith) in omega arith

pub to_le_bytes-from_le_bytes :
    (k : ℕ) (bytes : List ℕ)
    → length bytes ≡ k
    → All IsByte bytes
    → to_le_bytes k (from_le_bytes bytes) ≡ bytes
unfolding to_le_bytes from_le_bytes
to_le_bytes-from_le_bytes zero [] e h = refl
to_le_bytes-from_le_bytes zero (b ∷ bytes) e h = absurd (omega arith)
to_le_bytes-from_le_bytes (suc k) [] e h = absurd (omega arith)
to_le_bytes-from_le_bytes (suc k) (b ∷ bytes) e h =
    let r = from_le_bytes bytes in
    let low : (b + 256 * r) % 256 ≡ b = omega (arith, h.0) in
    let high : (b + 256 * r) / 256 ≡ r = omega (arith, h.0) in
    ap₂ ◌∷◌ low (ap (to_le_bytes k) high ∙ to_le_bytes-from_le_bytes k bytes (omega arith) h.1)

pub from_le_bytes-lt :
    (bytes : List ℕ) → All IsByte bytes → from_le_bytes bytes < 256 ^ length bytes
unfolding from_le_bytes
from_le_bytes-lt [] h = omega arith
from_le_bytes-lt (b ∷ bytes) h =
    let e = pow-suc 256 (length bytes) in let ih = from_le_bytes-lt bytes h.1 in omega (arith, h.0)
