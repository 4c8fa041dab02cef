-- ===== src/SmartDelta/Ranges/Scan.antt =====
-- What the range scan of `encode_ranges` finds: ranges in order, and no change outside them.
use native.Mathlib.Decide.{dec_lt}
use delta_stream.Common.{
  ℕ, zero, suc, ◌+◌, ◌-◌, ◌≤◌, ◌<◌, ◌≡◌, refl, List, [], ◌∷◌, length, get_or, inl, inr, Bool-cases,
  ==_iff, ◌==◌, ltb-eq-true, ltb-eq-false, true, false, arith,
}
use delta_stream.SmartDelta.Overlay.{SameBetween}
use delta_stream.SmartDelta.Ranges.{extend_range, find_ranges}

pub extend_range_bounds :
    (left : ℕ) (xs ys : List ℕ) (gap i last : ℕ)
    → last < i
    → i + left ≤ length ys
    → let r = extend_range left xs ys gap i last in (last ≤ r) × (r < i + left)
unfolding extend_range
extend_range_bounds zero xs ys gap i last h k = omega arith
extend_range_bounds (suc left) xs ys gap i last h k = ground (
  arith,
  extend_range_bounds left xs ys gap (i + 1) i (omega arith) (omega arith),
  extend_range_bounds left xs ys gap (i + 1) last (omega arith) (omega arith),
)

-- From the end `e` of one range on: the ranges stand in order inside the state, and before,
-- between and behind them both states agree.
abbrev pub Covers : List ℕ → List ℕ → ℕ → List (ℕ × ℕ) → Type 0
Covers xs ys e [] = SameBetween xs ys e (length ys)
Covers xs ys e ((start, end) ∷ rest) =
    (e ≤ start)
    × (start < end)
    × (end ≤ length ys)
    × SameBetween xs ys e start
    × Covers xs ys end rest

same_suc :
    (xs ys : List ℕ) (e i : ℕ)
    → SameBetween xs ys e i
    → get_or xs i 0 ≡ get_or ys i 0
    → SameBetween xs ys e (i + 1)
same_suc xs ys e i h k j lo hi = elim (dec_lt j i) [
  | yes below ↦ h j lo below
  | no above ↦ let at : i ≡ j = omega arith in rw at at k
]

find_ranges_skip :
    (rounds : ℕ) (xs ys : List ℕ) (gap i : ℕ)
    → i < length ys
    → (get_or xs i 0 == get_or ys i 0) ≡ true
    → find_ranges (suc rounds) xs ys gap i ≡ find_ranges rounds xs ys gap (i + 1)
unfolding find_ranges
find_ranges_skip rounds xs ys gap i h e = rw (ltb-eq-true i (length ys) h, e) refl

find_ranges_take :
    (rounds : ℕ) (xs ys : List ℕ) (gap i : ℕ)
    → i < length ys
    → (get_or xs i 0 == get_or ys i 0) ≡ false
    → let last = extend_range (length ys - (i + 1)) xs ys gap (i + 1) i in
      find_ranges (suc rounds) xs ys gap i ≡ (i, last + 1) ∷ find_ranges rounds xs ys gap (last + 1)
unfolding find_ranges
find_ranges_take rounds xs ys gap i h e = rw (ltb-eq-true i (length ys) h, e) refl

find_ranges_end :
    (rounds : ℕ) (xs ys : List ℕ) (gap i : ℕ)
    → length ys ≤ i
    → find_ranges (suc rounds) xs ys gap i ≡ []
unfolding find_ranges
find_ranges_end rounds xs ys gap i h = rw (ltb-eq-false i (length ys) h) refl

pub find_ranges-Covers :
    (rounds : ℕ) (xs ys : List ℕ) (gap e i : ℕ)
    → length ys ≤ i + rounds
    → e ≤ i
    → SameBetween xs ys e i
    → Covers xs ys e (find_ranges rounds xs ys gap i)
find_ranges-Covers zero xs ys gap e i fuel le same =
    unfold find_ranges in λ j lo hi. same j lo (omega arith)
find_ranges-Covers (suc rounds) xs ys gap e i fuel le same = elim (dec_lt i (length ys)) [
  | no past ↦
      rw (find_ranges_end rounds xs ys gap i (omega arith)) (λ j lo hi. same j lo (omega arith))
  | yes inside ↦ elim (Bool-cases (get_or xs i 0 == get_or ys i 0)) [
    | inl equal ↦ rw (find_ranges_skip rounds xs ys gap i inside equal) (
        find_ranges-Covers rounds xs ys gap e (i + 1) (omega arith) (omega arith)
          (same_suc xs ys e i same ((==_iff _ _).0 equal)))
    | inr differ ↦
        let last = extend_range (length ys - (i + 1)) xs ys gap (i + 1) i in
        let (lo, hi) =
          extend_range_bounds (length ys - (i + 1)) xs ys gap (i + 1) i (omega arith)
            (omega arith) in
        rw (find_ranges_take rounds xs ys gap i inside differ) (
          le,
          omega arith,
          omega arith,
          same,
          find_ranges-Covers rounds xs ys gap (last + 1) (last + 1) (omega arith) (omega arith)
              (λ j p q. absurd (omega arith)),
        )
  ]
]

pub length-find_ranges :
    (rounds : ℕ) (xs ys : List ℕ) (gap i : ℕ) → length (find_ranges rounds xs ys gap i) ≤ rounds
unfolding find_ranges
length-find_ranges zero xs ys gap i = omega arith
length-find_ranges (suc rounds) xs ys gap i =
    let last = extend_range (length ys - (i + 1)) xs ys gap (i + 1) i in
    ground (
      arith,
      length-find_ranges rounds xs ys gap (i + 1),
      length-find_ranges rounds xs ys gap (last + 1),
    )
