-- ===== src/SmartDelta/Chunks/Resize.antt =====
-- A chunk that the previous state has in the same place is still there after `resize`, and the
-- chunks of a state cover it.
use native.Mathlib.Nat.{lt-div-mul-add, div-mul-le_self, mul-le-mul_right}
use native.Mathlib.Decide.{dec_lt}
use delta_stream.Common.{
  ℕ, zero, suc, ◌+◌, ◌-◌, ◌*◌, ◌/◌, ◌≤◌, ◌<◌, ◌≡◌, refl, ap, ◌∙◌, sym, List, [], ◌∷◌, ◌++◌, true,
  Option, none, some, length, replicate, take, drop, slice?, arith,
}
use delta_stream.SmartDelta.Buffer.{resize}
use delta_stream.Common.Bytes.{same_bytes→eq}
use delta_stream.SmartDelta.Chunks.{is_some_bytes, div_ceil}

pub is_some_bytes→eq : (o : Option (List ℕ)) (ys : List ℕ) → is_some_bytes o ys ≡ true → o ≡ some ys
unfolding is_some_bytes
is_some_bytes→eq none ys h = cc
is_some_bytes→eq (some xs) ys h = ap some (same_bytes→eq xs ys h)

take-resize :
    (hi n : ℕ) (xs zs : List ℕ) → hi ≤ n → hi ≤ length xs → take hi (take n xs ++ zs) ≡ take hi xs
take-resize zero n xs zs h k = refl
take-resize (suc hi) zero xs zs h k = absurd (omega arith)
take-resize (suc hi) (suc n) [] zs h k = absurd (omega arith)
take-resize (suc hi) (suc n) (x ∷ xs) zs h k =
    ap (λ r. x ∷ r) (take-resize hi n xs zs (omega arith) (omega arith))

-- Cutting the front off and cutting the back off commute.
drop-take : (lo m hi : ℕ) (xs : List ℕ) → hi ≡ lo + m → drop lo (take hi xs) ≡ take m (drop lo xs)
drop-take zero m hi xs h = let e : hi ≡ m = omega arith in ap (λ k. take k xs) e
drop-take (suc lo) zero zero xs h = absurd (omega arith)
drop-take (suc lo) (suc m) zero xs h = absurd (omega arith)
drop-take (suc lo) zero (suc hi) [] h = refl
drop-take (suc lo) (suc m) (suc hi) [] h = refl
drop-take (suc lo) m (suc hi) (x ∷ xs) h = drop-take lo m hi xs (omega arith)

slice?-inside :
    (xs : List ℕ) (lo hi : ℕ) {ys : List ℕ}
    → slice? xs lo hi ≡ some ys
    → (hi ≤ length xs) × (take (hi - lo) (drop lo xs) ≡ ys)
unfolding slice?
slice?-inside xs lo hi h = ground arith

pub slice?-resize :
    (xs : List ℕ) (n lo hi : ℕ) (ys : List ℕ)
    → slice? xs lo hi ≡ some ys
    → lo ≤ hi
    → hi ≤ n
    → take (hi - lo) (drop lo (resize xs n)) ≡ ys
unfolding resize
slice?-resize xs n lo hi ys h le fits =
    let (inside, eq) = slice?-inside xs lo hi h in
    sym (drop-take lo (hi - lo) hi (resize xs n) (omega arith))
    ∙ ap (drop lo) (take-resize hi n xs (replicate (n - length xs) 0) fits inside)
    ∙ drop-take lo (hi - lo) hi xs (omega arith)
    ∙ eq

-- The chunks of the source's `div_ceil` cover the state, and each starts inside it.
pub div_ceil_bounds :
    (n d : ℕ) → 0 < d → (n ≤ div_ceil n d * d) × ((c : ℕ) → c < div_ceil n d → c * d < n)
unfolding div_ceil
div_ceil_bounds n d h =
    let q = (n + d - 1) / d in
    let above : n + d - 1 < q * d + d = lt-div-mul-add h in
    let below : q * d ≤ n + d - 1 = div-mul-le_self (n + d - 1) d in
    (omega arith, λ c k. let rounds : suc c * d ≤ q * d = mul-le-mul_right d k in omega arith)

pub div_ceil-le : (n d : ℕ) → 0 < d → div_ceil n d ≤ n
div_ceil-le n d h =
    let (cover, below) = div_ceil_bounds n d h in
    elim (dec_lt n (div_ceil n d)) [
      | no small ↦ omega arith
      | yes large ↦
          let inside : n * d < n = below n large in
          let grows : n ≤ n * d = grind arith in absurd (omega arith)
    ]
