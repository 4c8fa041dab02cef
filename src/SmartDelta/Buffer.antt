-- ===== src/SmartDelta/Buffer.antt =====
-- Reads and writes of the byte buffers that the delta decoders build: `get_mut`, `copy_from_slice`
-- and `resize` of a `Vec<u8>`, and the distances
-- between indices.
use delta_stream.Common.{
  ℕ, zero, suc, ◌+◌, ◌-◌, ◌≤◌, ◌≡◌, refl, ap, sym, ◌∙◌, ◌&&◌, List, [], ◌∷◌, ◌++◌, append_assoc,
  Option, none, some, if◌then◌else◌, ltb, leb, length, set, take, drop, replicate, length-take,
  length-replicate, length-append, take-append, drop-append, arith, IsU64, checked_add,
  checked_add-some, ◌==◌, Bool-cases, inl, inr,
}
use delta_stream.Error.{DeltaError, ok, ok_or}

-- `*out.get_mut(i)? = v`
unfoldable pub set? : List ℕ → ℕ → ℕ → Option (List ℕ)
set? xs i v = if ltb i (length xs) then some (set xs i v) else none

-- `out.get_mut(lo..hi)?.copy_from_slice(src)`, for `src` as long as the range.
unfoldable pub copy_into? : List ℕ → ℕ → ℕ → List ℕ → Option (List ℕ)
copy_into? out lo hi src =
    if leb lo hi && leb hi (length out) then some (take lo out ++ (src ++ drop hi out)) else none

-- `out.resize(n, 0)`
unfoldable pub resize : List ℕ → ℕ → List ℕ
resize xs n = take n xs ++ replicate (n - length xs) 0

-- A write at the border between what is rebuilt and what is left of the base.
pub set?-border :
    (front : List ℕ) (x v : ℕ) (back : List ℕ) (i : ℕ)
    → i ≡ length front
    → set? (front ++ (x ∷ back)) i v ≡ some (front ++ (v ∷ back))
unfolding set?
set?-border front x v back i e =
    ground (arith, length-append front (x ∷ back), set-border front i e)
  where
    set-border : (f : List ℕ) (j : ℕ) → j ≡ length f → set (f ++ (x ∷ back)) j v ≡ f ++ (v ∷ back)
    set-border [] zero e = refl
    set-border [] (suc j) e = absurd (omega arith)
    set-border (y ∷ f) zero e = absurd (omega arith)
    set-border (y ∷ f) (suc j) e = ap (λ r. y ∷ r) (set-border f j (omega arith))

-- Cutting the middle out of a list that is split at `lo`.
pub copy_into?-border :
    (front mid back : List ℕ) (src : List ℕ) (lo hi : ℕ)
    → lo ≡ length front
    → hi ≡ lo + length mid
    → copy_into? (front ++ (mid ++ back)) lo hi src ≡ some (front ++ (src ++ back))
unfolding copy_into?
copy_into?-border front mid back src lo hi e k =
    let n : length (front ++ (mid ++ back)) ≡ length front + length (mid ++ back) =
      length-append front (mid ++ back) in
    let m = length-append mid back in
    let t = take-append lo front (mid ++ back) e in
    let d : drop hi (front ++ (mid ++ back)) ≡ back =
      ap (drop hi) (sym (append_assoc front mid back))
      ∙ drop-append hi (front ++ mid) back (omega (arith, length-append front mid)) in
    ground arith

abbrev zeros : ℕ
zeros = 0

pub length-resize : (xs : List ℕ) (n : ℕ) → length (resize xs n) ≡ n
unfolding resize
length-resize xs n = omega (
  arith,
  length-append (take n xs) (replicate (n - length xs) 0),
  length-take n xs,
  length-replicate (n - length xs) zeros,
)

-- The index that the decoder computes from the distance.
pub next_index :
    (n p i : ℕ) (e : DeltaError)
    → p ≤ i
    → IsU64 i
    → let delta = if n == 0 then i else i - p in
      (if n == 0 then ok delta else ok_or (checked_add p delta) e) ≡ ok i
next_index n p i e le small = elim (Bool-cases (n == 0)) [
  | inl first ↦ rw first refl
  | inr later ↦ rw (later, checked_add-some p (i - p) (omega arith)) (ap ok (omega arith))
]
