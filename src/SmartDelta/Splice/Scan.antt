-- ===== src/SmartDelta/Splice/Scan.antt =====
-- What the two scanning loops of `encode_splice` find.
use native.Mathlib.Decide.{dec_lt}
use delta_stream.Common.{
  ℕ, zero, suc, ◌+◌, ◌-◌, ◌≤◌, ◌<◌, ◌≡◌, refl, ap₂, ◌∙◌, sym, List, [], ◌∷◌, min, inl, inr,
  Bool-cases, ==_iff, ◌==◌, length, length-drop, take, drop, get_or-drop, list_ext, arith,
}
use delta_stream.SmartDelta.Splice.{byte_at, prefix_loop, suffix_loop, common_prefix, common_suffix}

-- The first `p` bytes agree.
abbrev SameFront : List ℕ → List ℕ → ℕ → Type 0
SameFront xs ys p = (j : ℕ) → j < p → byte_at xs j ≡ byte_at ys j

-- The last `s` bytes agree.
abbrev SameBack : List ℕ → List ℕ → ℕ → Type 0
SameBack xs ys s = (j : ℕ) → j < s → byte_at xs (length xs - 1 - j) ≡ byte_at ys (length ys - 1 - j)

agree_suc : (P : ℕ → Type 0) (n : ℕ) → ((j : ℕ) → j < n → P j) → P n → (j : ℕ) → j < n + 1 → P j
agree_suc P n h e j k = elim (dec_lt j n) [
  | yes lt ↦ h j lt
  | no ge ↦ let at : n ≡ j = omega arith in rw at at e
]

-- What a prefix or suffix loop returns: a count in range up to which all bytes agree.
abbrev Counted : (ℕ → Type 0) → ℕ → ℕ → ℕ → Type 0
Counted Same start most r = (start ≤ r) × (r ≤ most) × Same r

prefix_loop_lem :
    (left : ℕ) (xs ys : List ℕ) (p most : ℕ)
    → most ≡ p + left
    → SameFront xs ys p
    → Counted (SameFront xs ys) p most (prefix_loop left xs ys p)
unfolding prefix_loop
prefix_loop_lem zero xs ys p most e h = (omega arith, omega arith, h)
prefix_loop_lem (suc left) xs ys p most e h = elim (Bool-cases (byte_at xs p == byte_at ys p)) [
  | inl same ↦
      let (lo, hi, all) =
        prefix_loop_lem left xs ys (p + 1) most (omega arith)
          (agree_suc (λ j. byte_at xs j ≡ byte_at ys j) p h ((==_iff _ _).0 same)) in
      rw same (omega arith, hi, all)
  | inr differ ↦ rw differ (omega arith, omega arith, h)
]

suffix_loop_lem :
    (left : ℕ) (xs ys : List ℕ) (s most : ℕ)
    → most ≡ s + left
    → SameBack xs ys s
    → Counted (SameBack xs ys) s most (suffix_loop left xs ys s)
unfolding suffix_loop
suffix_loop_lem zero xs ys s most e h = (omega arith, omega arith, h)
suffix_loop_lem (suc left) xs ys s most e h =
    elim (Bool-cases (byte_at xs (length xs - 1 - s) == byte_at ys (length ys - 1 - s))) [
      | inl same ↦
          let (lo, hi, all) = suffix_loop_lem left xs ys (s + 1) most (omega arith) (
            agree_suc (λ j. byte_at xs (length xs - 1 - j) ≡ byte_at ys (length ys - 1 - j)) s h
              ((==_iff _ _).0 same)) in
          rw same (omega arith, hi, all)
      | inr differ ↦ rw differ (omega arith, omega arith, h)
    ]

SameFront-take :
    (p : ℕ) (xs ys : List ℕ)
    → p ≤ length xs
    → p ≤ length ys
    → SameFront xs ys p
    → take p xs ≡ take p ys
SameFront-take zero xs ys h k same = refl
SameFront-take (suc p) [] ys h k same = absurd (omega arith)
SameFront-take (suc p) (x ∷ xs) [] h k same = absurd (omega arith)
SameFront-take (suc p) (x ∷ xs) (y ∷ ys) h k same =
    ap₂ ◌∷◌ (same 0 (omega arith))
      (SameFront-take p xs ys (omega arith) (omega arith) (λ j m. same (suc j) (omega arith)))

SameBack-drop :
    (s : ℕ) (xs ys : List ℕ)
    → s ≤ length xs
    → s ≤ length ys
    → SameBack xs ys s
    → drop (length xs - s) xs ≡ drop (length ys - s) ys
SameBack-drop s xs ys h k same =
    list_ext 0 (drop (length xs - s) xs) (drop (length ys - s) ys) (omega (arith, dx, dy)) λ i m.
      let j : ℕ = s - 1 - i in
      get_or-drop (length xs - s) i (length xs - 1 - j) xs 0 (omega (arith, dx))
      ∙ same j (omega (arith, dx))
      ∙ sym (get_or-drop (length ys - s) i (length ys - 1 - j) ys 0 (omega (arith, dx)))
  where
    dx : length (drop (length xs - s) xs) ≡ length xs - (length xs - s)
    dx = length-drop (length xs - s) xs

    dy : length (drop (length ys - s) ys) ≡ length ys - (length ys - s)
    dy = length-drop (length ys - s) ys

-- The lengths that `encode_splice` finds.
pub record IsSplice (previous current : List ℕ) (p s : ℕ) : Type 0 where
  pub in_previous : p + s ≤ length previous
  pub in_current : p + s ≤ length current
  pub front : take p previous ≡ take p current
  pub back : drop (length previous - s) previous ≡ drop (length current - s) current

pub common-IsSplice :
    (previous current : List ℕ)
    → let p = common_prefix previous current in
      IsSplice previous current p (common_suffix previous current p)
unfolding common_prefix common_suffix
common-IsSplice xs ys =
    let p = common_prefix xs ys in
    let (p_lo, p_hi, p_same) =
      prefix_loop_lem (min (length xs) (length ys)) xs ys 0 (min (length xs) (length ys))
        (omega arith) (λ j h. absurd (omega arith)) in
    let (s_lo, s_hi, s_same) =
      suffix_loop_lem (min (length xs - p) (length ys - p)) xs ys 0
        (min (length xs - p) (length ys - p)) (omega arith) (λ j h. absurd (omega arith)) in
    record {
      in_previous = omega arith;
      in_current = omega arith;
      front = SameFront-take p xs ys (omega arith) (omega arith) p_same;
      back = SameBack-drop (common_suffix xs ys p) xs ys (omega arith) (omega arith) s_same;
    }
