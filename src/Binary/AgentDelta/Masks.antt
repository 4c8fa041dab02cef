-- ===== src/Binary/AgentDelta/Masks.antt =====
-- The mask of `between` has the bit of a field exactly where the field differs.
use native.Mathlib.Nat.{pow-suc, pow-succ', one-le-pow, zero-div, div-div-eq-div-mul}
use delta_stream.Common.{
  ap, sym, ◌∙◌, subst, ==-eq-true, ==-eq-false, [], ◌∷◌, zero, length, ℕ, suc, ◌+◌, ◌*◌, ◌/◌, ◌%◌,
  ◌^◌, ◌<◌, ◌≡◌, refl, Bool, true, false, List, Option, none, some, bit_and, ◌==◌, if◌then◌else◌,
  arith,
}
use delta_stream.Common.Bits.{one_bit}
use delta_stream.Common.Disjoint.{bit_or_disjoint}
use delta_stream.Binary.AgentDelta.{mark, when}

abbrev pub digit : Bool → ℕ
digit c = if c then 1 else 0

mark_lem : (c : Bool) (k mask : ℕ) → mask < 2 ^ k → mark c (2 ^ k) mask ≡ mask + digit c * 2 ^ k
unfolding mark
mark_lem true k mask h = ground (arith, bit_or_disjoint k mask 1)
mark_lem false k mask h = omega arith

-- A field's value, where its bit is set; nothing, where it is not.
abbrev pub IsField : {A : Type 0} → (A → Type 0) → ℕ → ℕ → Option A → Type 0
IsField P mask bit none = (bit_and mask bit == 0) ≡ true
IsField P mask bit (some value) = ((bit_and mask bit == 0) ≡ false) × P value

-- The blocks of `between`, from the bit `k` on.
unfoldable pub mark_all : ℕ → List Bool → ℕ → ℕ
mark_all k [] mask = mask
mark_all k (c ∷ cs) mask = mark_all (suc k) cs (mark c (2 ^ k) mask)

value_of : List Bool → ℕ
value_of [] = 0
value_of (c ∷ cs) = digit c + 2 * value_of cs

mark_all-value_of :
    (k mask : ℕ) (cs : List Bool) → mask < 2 ^ k → mark_all k cs mask ≡ mask + value_of cs * 2 ^ k
unfolding mark_all value_of
mark_all-value_of k mask [] h = omega arith
mark_all-value_of k mask (true ∷ cs) h = omega (
  arith,
  pow-suc 2 k,
  ap (mark_all (suc k) cs) (mark_lem true k mask h),
  mark_all-value_of (suc k) (mask + 1 * 2 ^ k) cs (omega (arith, pow-suc 2 k)),
  ap (λ (t : ℕ). value_of cs * t) (pow-suc 2 k),
)
mark_all-value_of k mask (false ∷ cs) h = omega (
  arith,
  pow-suc 2 k,
  ap (mark_all (suc k) cs) (mark_lem false k mask h),
  mark_all-value_of (suc k) (mask + 0 * 2 ^ k) cs (omega (arith, pow-suc 2 k)),
  ap (λ (t : ℕ). value_of cs * t) (pow-suc 2 k),
)

digit-lt : (c : Bool) → digit c < 2
digit-lt c = ground arith

value_of-lt : (cs : List Bool) → value_of cs < 2 ^ length cs
unfolding value_of
value_of-lt [] = omega arith
value_of-lt (c ∷ cs) = omega (arith, digit-lt c, value_of-lt cs, pow-suc 2 (length cs))

-- The digit at a place of the list.
abbrev pub digit_at : ℕ → List Bool → ℕ
digit_at k [] = 0
digit_at zero (c ∷ cs) = digit c
digit_at (suc k) (c ∷ cs) = digit_at k cs

value_of-digit_at : (k : ℕ) (cs : List Bool) → value_of cs / 2 ^ k % 2 ≡ digit_at k cs
unfolding value_of
value_of-digit_at k [] = ground (arith, zero-div (2 ^ k))
value_of-digit_at zero (c ∷ cs) = omega (arith, digit-lt c)
value_of-digit_at (suc k) (c ∷ cs) =
    let v = digit c + 2 * value_of cs in
    let whole : v / 2 ^ suc k ≡ v / 2 / 2 ^ k =
      ap (λ (t : ℕ). v / t) (pow-succ' 2 k) ∙ sym (div-div-eq-div-mul v 2 (2 ^ k)) in
    let half : v / 2 ≡ value_of cs = omega (arith, digit-lt c) in
    ap (λ (t : ℕ). t % 2) whole ∙ ap (λ (t : ℕ). t / 2 ^ k % 2) half ∙ value_of-digit_at k cs

bit-mark_all :
    (cs : List Bool) (k : ℕ)
    → length cs ≡ 10
    → k < 10
    → bit_and (mark_all 0 cs 0) (2 ^ k) ≡ digit_at k cs * 2 ^ k
bit-mark_all cs k ten lt =
    let whole : mark_all 0 cs 0 ≡ value_of cs = omega (arith, mark_all-value_of 0 0 cs) in
    let fits : value_of cs < 1024 = subst (λ n. value_of cs < 2 ^ n) ten (value_of-lt cs) in
    ap (λ m. bit_and m (2 ^ k)) whole
    ∙ one_bit k (value_of cs) lt fits
    ∙ ap (λ d. d * 2 ^ k) (value_of-digit_at k cs)

pub mark_all-lt : (cs : List Bool) → length cs ≡ 10 → mark_all 0 cs 0 < 1024
mark_all-lt cs ten =
    let fits : value_of cs < 1024 = subst (λ n. value_of cs < 2 ^ n) ten (value_of-lt cs) in
    omega (arith, fits, mark_all-value_of 0 0 cs)

-- A block of `between` leaves its field's bit set where the values differ.
pub mark_all-IsField :
    {A : Type 0} (P : A → Type 0) (cs : List Bool) (k : ℕ) (c : Bool) (value : A)
    → length cs ≡ 10
    → k < 10
    → digit_at k cs ≡ digit c
    → (c ≡ true → P value)
    → IsField P (mark_all 0 cs 0) (2 ^ k) (when c value)
unfolding when
mark_all-IsField P cs k true value ten lt at h =
    let p = one-le-pow k 2 in
    (
      ==-eq-false _ 0 (λ e. omega (arith, e, p, bit-mark_all cs k ten lt, ap (λ d. d * 2 ^ k) at)),
      h refl,
    )
mark_all-IsField P cs k false value ten lt at h =
    ==-eq-true _ 0 (omega (arith, bit-mark_all cs k ten lt, ap (λ d. d * 2 ^ k) at))
