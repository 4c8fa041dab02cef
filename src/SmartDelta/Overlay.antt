-- ===== src/SmartDelta/Overlay.antt =====
-- A buffer whose first part is already the target's and whose rest is still the base's: how a
-- write moves the border on.
use native.Mathlib.Decide.{dec_lt}
use delta_stream.Common.{
  ℕ, zero, suc, ◌+◌, ◌-◌, ◌≤◌, ◌<◌, ◌≡◌, refl, ap, ap₂, ◌∙◌, sym, List, [], ◌∷◌, ◌++◌, min, some,
  append_assoc, append-nil, length, take, drop, get_or, length-take, length-drop, length-append,
  take-append-drop, drop-drop, drop-length, take-length, arith,
}
use delta_stream.SmartDelta.Buffer.{copy_into?, copy_into?-border}

unfoldable pub overlay : List ℕ → List ℕ → ℕ → List ℕ
overlay target base k = take k target ++ drop k base

pub overlay-zero : (target base : List ℕ) → overlay target base 0 ≡ base
unfolding overlay
overlay-zero target base = refl

pub overlay-length :
    (target base : List ℕ) (k : ℕ)
    → length target ≤ k
    → length base ≤ k
    → overlay target base k ≡ target
unfolding overlay
overlay-length target base k h g =
    ap₂ ◌++◌ (take-length k target h) (drop-length k base g) ∙ append-nil target

-- Over a place where both agree the border may move without a write.
overlay-suc :
    (k : ℕ) (ys xs : List ℕ)
    → length xs ≡ length ys
    → get_or xs k 0 ≡ get_or ys k 0
    → overlay ys xs k ≡ overlay ys xs (suc k)
unfolding overlay
overlay-suc zero [] [] e h = refl
overlay-suc zero [] (x ∷ xs) e h = absurd (omega arith)
overlay-suc zero (y ∷ ys) [] e h = absurd (omega arith)
overlay-suc zero (y ∷ ys) (x ∷ xs) e h = ap (λ z. z ∷ xs) h
overlay-suc (suc k) [] [] e h = refl
overlay-suc (suc k) [] (x ∷ xs) e h = absurd (omega arith)
overlay-suc (suc k) (y ∷ ys) [] e h = absurd (omega arith)
overlay-suc (suc k) (y ∷ ys) (x ∷ xs) e h = ap (λ r. y ∷ r) (overlay-suc k ys xs (omega arith) h)

-- From `lo` up to `hi` both agree.
abbrev pub SameBetween : List ℕ → List ℕ → ℕ → ℕ → Type 0
SameBetween xs ys lo hi = (j : ℕ) → lo ≤ j → j < hi → get_or xs j 0 ≡ get_or ys j 0

pub overlay_same :
    (d lo hi : ℕ) (ys xs : List ℕ)
    → hi ≡ lo + d
    → length xs ≡ length ys
    → SameBetween xs ys lo hi
    → overlay ys xs lo ≡ overlay ys xs hi
overlay_same zero lo hi ys xs e l h = let e' : hi ≡ lo = omega arith in rw e' refl
overlay_same (suc d) lo hi ys xs e l h =
    overlay-suc lo ys xs l (h lo (omega arith) (omega arith))
    ∙ overlay_same d (suc lo) hi ys xs (omega arith) l (λ j p q. h j (omega arith) q)

take_split :
    (lo m hi : ℕ) (xs : List ℕ) → hi ≡ lo + m → take lo xs ++ take m (drop lo xs) ≡ take hi xs
take_split zero m hi xs h = let e : m ≡ hi = omega arith in rw e refl
take_split (suc lo) zero zero xs h = absurd (omega arith)
take_split (suc lo) (suc m) zero xs h = absurd (omega arith)
take_split (suc lo) zero (suc hi) [] h = refl
take_split (suc lo) (suc m) (suc hi) [] h = refl
take_split (suc lo) m (suc hi) (x ∷ xs) h = ap (λ r. x ∷ r) (take_split lo m hi xs (omega arith))

-- Writing the target's bytes from the border `lo` up to `hi` moves the border to `hi`.
pub copy_into?-overlay :
    (ys xs : List ℕ) (lo hi : ℕ)
    → length xs ≡ length ys
    → lo ≤ hi
    → hi ≤ length ys
    → copy_into? (overlay ys xs lo) lo hi (take (hi - lo) (drop lo ys)) ≡ some (overlay ys xs hi)
unfolding overlay
copy_into?-overlay ys xs lo hi e h k =
    let split : drop lo xs ≡ take (hi - lo) (drop lo xs) ++ drop hi xs = sym (
      ap (λ r. take (hi - lo) (drop lo xs) ++ r) (sym (drop-drop lo (hi - lo) hi xs (omega arith)))
      ∙ take-append-drop (hi - lo) (drop lo xs)) in
    let data_ = take (hi - lo) (drop lo ys) in
    ap (λ r. copy_into? (take lo ys ++ r) lo hi data_) split
    ∙ copy_into?-border (take lo ys) (take (hi - lo) (drop lo xs)) (drop hi xs) data_ lo hi
        (omega (arith, length-take lo ys))
        (omega (arith, length-take (hi - lo) (drop lo xs), length-drop lo xs))
    ∙ ap some (
        sym (append_assoc (take lo ys) data_ (drop hi xs))
        ∙ ap (λ f. f ++ drop hi xs) (take_split lo (hi - lo) hi ys (omega arith)))

-- Where the base already has the target's bytes between `lo` and `hi`, the border moves on.
pub overlay_slice :
    (ys xs : List ℕ) (lo hi : ℕ)
    → lo ≤ hi
    → take (hi - lo) (drop lo xs) ≡ take (hi - lo) (drop lo ys)
    → overlay ys xs lo ≡ overlay ys xs hi
unfolding overlay
overlay_slice ys xs lo hi h e =
    ap (λ r. take lo ys ++ r)
      (sym (take-append-drop (hi - lo) (drop lo xs))
        ∙ ap₂ ◌++◌ e (drop-drop lo (hi - lo) hi xs (omega arith)))
    ∙ sym (append_assoc (take lo ys) (take (hi - lo) (drop lo ys)) (drop hi xs))
    ∙ ap (λ f. f ++ drop hi xs) (take_split lo (hi - lo) hi ys (omega arith))

-- A border past the end is a border at the end.
pub overlay_clip :
    (ys xs : List ℕ) (m : ℕ)
    → length xs ≡ length ys
    → overlay ys xs (min m (length ys)) ≡ overlay ys xs m
overlay_clip ys xs m e = elim (dec_lt m (length ys)) [
  | yes inside ↦ ap (overlay ys xs) (omega arith)
  | no past ↦
      overlay-length ys xs (min m (length ys)) (omega arith) (omega arith)
      ∙ sym (overlay-length ys xs m (omega arith) (omega arith))
]

pub length-overlay :
    (ys xs : List ℕ) (k : ℕ) → length xs ≡ length ys → length (overlay ys xs k) ≡ length ys
unfolding overlay
length-overlay ys xs k e =
    omega (arith, length-append (take k ys) (drop k xs), length-take k ys, length-drop k xs)
