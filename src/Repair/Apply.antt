-- ===== src/Repair/Apply.antt =====
-- A repair that was built for a receiver's state turns it into the authoritative one.
use native.Mathlib.Nat.{lt_of_mul-lt-mul_right, mul-le-mul_right}
use delta_stream.Common.{
  ℕ, zero, suc, ◌+◌, ◌-◌, ◌*◌, ◌≤◌, ◌<◌, ◌≡◌, refl, ap, sym, subst, ◌∙◌, inl, inr, Option-cases,
  checked_mul_inv, Bool, true, Bool-cases, leq-cases, max, min, List, [], ◌∷◌, ◌++◌, map, none,
  some, length, length-take, length-drop, take, drop, get_elem?, slice?, isize_max, checked_mul,
  checked_add, checked_mul-some, checked_add-some, ltb-eq-false, leb-eq-true, leb-eq-false,
  ==-eq-true, ==_iff, arith,
}
use delta_stream.Error.{ok, >>=-ok}
use delta_stream.Hash.{fnv1a64}
use delta_stream.SmartDelta.Buffer.{resize, length-resize, copy_into?}
use delta_stream.SmartDelta.Overlay.{
  overlay, overlay-zero, overlay-length, length-overlay, overlay_slice, overlay_clip,
  copy_into?-overlay,
}
use delta_stream.SmartDelta.Chunks.{div_ceil}
use delta_stream.SmartDelta.Chunks.Resize.{slice?-resize, div_ceil_bounds}
use delta_stream.Repair.{
  chunk_at, chunks_from, chunks, build_manifest, same_hash, differing_from, differing_chunks,
  ChunkPatch, make_patch, make_patches, build, is_empty, write_range, apply_patch, apply_patches,
  apply, put_patch,
}

-- The hashes in a manifest.
hash_at :
    (left k j : ℕ) (xs : List ℕ) (d : ℕ)
    → j < left
    → get_elem? (map fnv1a64 (chunks_from left k xs d)) j ≡ some (fnv1a64 (chunk_at xs d (k + j)))
unfolding chunks_from
hash_at zero k j xs d h = absurd (omega arith)
hash_at (suc left) k zero xs d h = ap (λ i. some (fnv1a64 (chunk_at xs d i))) (omega arith)
hash_at (suc left) k (suc j) xs d h =
    hash_at left (k + 1) j xs d (omega arith)
    ∙ ap (λ i. some (fnv1a64 (chunk_at xs d i))) (omega arith)

hash_past :
    (left k j : ℕ) (xs : List ℕ) (d : ℕ)
    → left ≤ j
    → get_elem? (map fnv1a64 (chunks_from left k xs d)) j ≡ none
unfolding chunks_from
hash_past zero k j xs d h = refl
hash_past (suc left) k zero xs d h = absurd (omega arith)
hash_past (suc left) k (suc j) xs d h = hash_past left (k + 1) j xs d (omega arith)

abbrev hashes_of : List ℕ → ℕ → List ℕ
hashes_of xs d = map fnv1a64 (chunks xs d)

hash_of :
    (xs : List ℕ) (d i : ℕ)
    → i < div_ceil (length xs) d
    → get_elem? (hashes_of xs d) i ≡ some (fnv1a64 (chunk_at xs d i))
unfolding chunks
hash_of xs d i h =
    hash_at (div_ceil (length xs) d) 0 i xs d h
    ∙ ap (λ j. some (fnv1a64 (chunk_at xs d j))) (omega arith)

no_hash_of :
    (xs : List ℕ) (d i : ℕ) → div_ceil (length xs) d ≤ i → get_elem? (hashes_of xs d) i ≡ none
unfolding chunks
no_hash_of xs d i h = hash_past (div_ceil (length xs) d) 0 i xs d h

take-take : (m n : ℕ) (xs : List ℕ) → m ≤ n → take m (take n xs) ≡ take m xs
take-take zero n xs h = refl
take-take (suc m) zero xs h = absurd (omega arith)
take-take (suc m) (suc n) [] h = refl
take-take (suc m) (suc n) (x ∷ xs) h = ap (λ r. x ∷ r) (take-take m n xs (omega arith))

length-chunks_from :
    (left k : ℕ) (xs : List ℕ) (d : ℕ) → length (map fnv1a64 (chunks_from left k xs d)) ≡ left
unfolding chunks_from
length-chunks_from zero k xs d = refl
length-chunks_from (suc left) k xs d = ap suc (length-chunks_from left (k + 1) xs d)

length-hashes_of : (xs : List ℕ) (d : ℕ) → length (hashes_of xs d) ≡ div_ceil (length xs) d
unfolding chunks
length-hashes_of xs d = length-chunks_from (div_ceil (length xs) d) 0 xs d

-- Chunks inside the authoritative state with the same hash are the same.
abbrev pub NoCollision : List ℕ → List ℕ → ℕ → Type 0
NoCollision xs ys d =
    (i : ℕ)
    → i * d < length ys
    → fnv1a64 (chunk_at xs d i) ≡ fnv1a64 (chunk_at ys d i)
    → chunk_at xs d i ≡ chunk_at ys d i

-- A patch whose range lies inside the buffer is written.
apply_patch-write :
    (i d lo hi : ℕ) (bytes out out' : List ℕ)
    → checked_mul i d ≡ some lo
    → lo < length out
    → length bytes ≡ hi - lo
    → lo ≤ hi
    → hi ≤ length out
    → length out ≤ isize_max
    → copy_into? out lo hi bytes ≡ some out'
    → apply_patch d (record { index = i; bytes = bytes }) out ≡ ok out'
unfolding apply_patch write_range copy_into?
apply_patch-write i d lo hi bytes out out' start inside len le fits small written =
    let end : checked_add lo (length bytes) ≡ some hi =
      checked_add-some lo (length bytes) (omega arith) ∙ ap some (omega arith) in
    let result : take lo out ++ (bytes ++ drop hi out) ≡ out' =
      cc (rw (leb-eq-true lo hi le, leb-eq-true hi (length out) fits) at written) in
    rw (start, leb-eq-false (length out) lo inside)
      (elim (Bool-cases (is_empty bytes)) [
        | inl empty ↦ rw (empty, end, ltb-eq-false (length out) hi fits) (ap ok result)
        | inr full ↦ rw (full, end, ltb-eq-false (length out) hi fits) (ap ok result)
      ])

module _ (xs ys : List ℕ) (d : ℕ) (pos : 0 < d) (small : length ys ≤ isize_max)
    (safe : NoCollision xs ys d) where
  abbrev buffer : List ℕ
  buffer = resize xs (length ys)

  abbrev end_of : ℕ → ℕ
  end_of i = min (i * d + d) (length ys)

  count-lt : (i : ℕ) → i * d < length ys → i < div_ceil (length ys) d
  count-lt i inside =
      let (cover, below) = div_ceil_bounds (length ys) d pos in
      let lt : i * d < div_ceil (length ys) d * d = omega arith in lt_of_mul-lt-mul_right d lt

  abbrev agree : ℕ → Bool
  agree i = same_hash (get_elem? (hashes_of xs d) i) (get_elem? (hashes_of ys d) i)

  -- An index whose hashes agree has the same chunk in both states.
  same_chunk : (i : ℕ) → i * d < length ys → agree i ≡ true → chunk_at xs d i ≡ chunk_at ys d i
  unfolding same_hash
  same_chunk i inside e =
      let theirs = hash_of ys d i (count-lt i inside) in
      elim (leq-cases (div_ceil (length xs) d) i) [
        | inl past ↦
            let none_here = no_hash_of xs d i past in
            absurd (
              let e' : same_hash none (some (fnv1a64 (chunk_at ys d i))) ≡ true =
                rw (none_here, theirs) at e in
              cc)
        | inr has ↦
            let ours = hash_of xs d i has in
            safe i inside (
              (==_iff _ _).0 (
                let e' : same_hash (some (fnv1a64 (chunk_at xs d i)))
                      (some (fnv1a64 (chunk_at ys d i)))
                    ≡ true =
                  rw (ours, theirs) at e in
                e'))
      ]

  -- There the buffer already has the authoritative bytes.
  kept :
      (i : ℕ)
      → i * d < length ys
      → chunk_at xs d i ≡ chunk_at ys d i
      → overlay ys buffer (i * d) ≡ overlay ys buffer (end_of i)
  unfolding chunk_at slice?
  kept i inside e =
      let lo = i * d in
      let hi = end_of i in
      let long : hi ≤ length xs = omega (
        arith,
        ap length e,
        length-take d (drop lo xs),
        length-take d (drop lo ys),
        length-drop lo xs,
        length-drop lo ys,
      ) in
      let same : take (hi - lo) (drop lo xs) ≡ take (hi - lo) (drop lo ys) =
        sym (take-take (hi - lo) d (drop lo xs) (omega arith))
        ∙ ap (take (hi - lo)) e
        ∙ take-take (hi - lo) d (drop lo ys) (omega arith) in
      let there : slice? xs lo hi ≡ some (take (hi - lo) (drop lo xs)) =
        rw (leb-eq-true lo hi (omega arith), leb-eq-true hi (length xs) long) refl in
      overlay_slice ys buffer lo hi (omega arith) (
        slice?-resize xs (length ys) lo hi (take (hi - lo) (drop lo xs)) there (omega arith)
          (omega arith)
        ∙ same)

  end-next : (i : ℕ) → overlay ys buffer (end_of i) ≡ overlay ys buffer ((i + 1) * d)
  end-next i =
      overlay_clip ys buffer (i * d + d) (length-resize xs (length ys))
      ∙ ap (overlay ys buffer) (omega arith)

  -- Behind the state nothing is left to do.
  past_end : (k : ℕ) → length ys ≤ k → overlay ys buffer k ≡ ys
  past_end k h = let n = length-resize xs (length ys) in overlay-length ys buffer k h (omega arith)

  abbrev chunk_patch : ℕ → ChunkPatch
  chunk_patch i = record { index = i; bytes = take (end_of i - i * d) (drop (i * d) ys) }

  offset : (i : ℕ) → i * d < length ys → checked_mul i d ≡ some (i * d)
  offset i inside = checked_mul-some i d (omega arith)

  make_patch-inside : (i : ℕ) → i * d < length ys → make_patch ys d i ≡ some (chunk_patch i)
  unfolding make_patch
  make_patch-inside i inside = rw (offset i inside, leb-eq-false (length ys) (i * d) inside) refl

  -- The patch of an index inside the state writes its chunk.
  apply_patch-inside :
      (i : ℕ)
      → i * d < length ys
      → apply_patch d (chunk_patch i) (overlay ys buffer (i * d))
        ≡ ok (overlay ys buffer (end_of i))
  apply_patch-inside i inside =
      let n : length (overlay ys buffer (i * d)) ≡ length ys =
        length-overlay ys buffer (i * d) (length-resize xs (length ys)) in
      apply_patch-write i d (i * d) (end_of i) (take (end_of i - i * d) (drop (i * d) ys))
        (overlay ys buffer (i * d)) (overlay ys buffer (end_of i)) (offset i inside) (omega arith)
        (omega (arith, length-take (end_of i - i * d) (drop (i * d) ys), length-drop (i * d) ys))
        (omega arith) (omega arith) (omega arith)
        (copy_into?-overlay ys buffer (i * d) (end_of i) (length-resize xs (length ys))
          (omega arith) (omega arith))

  -- A patch behind the state changes nothing.
  apply_patches-past :
      (i : ℕ) (rest : List ChunkPatch)
      → length ys ≤ i * d
      → apply_patches d rest ys ≡ ok ys
      → apply_patches d (put_patch (make_patch ys d i) rest) ys ≡ ok ys
  unfolding apply_patches apply_patch put_patch make_patch
  apply_patches-past i rest past h = elim (Option-cases (checked_mul i d)) [
    | inl over ↦ rw over h
    | inr (start, e) ↦
        let at : start ≡ i * d = checked_mul_inv i d start e in
        rw
          (
            e,
            leb-eq-true (length ys) start (omega arith),
            apply_patches,
            e,
            leb-eq-true (length ys) start (omega arith),
          )
          h
  ]

  -- From every index on, the patches finish the state.
  apply_patches-finish :
      (left i : ℕ)
      → length ys ≤ (i + left) * d
      → apply_patches d
          (make_patches ys d (differing_from left i (hashes_of xs d) (hashes_of ys d)))
          (overlay ys buffer (i * d))
        ≡ ok ys
  unfolding apply_patches make_patches differing_from
  apply_patches-finish zero i cover = ap ok (past_end (i * d) (omega arith))
  apply_patches-finish (suc left) i cover =
      let later = differing_from left (i + 1) (hashes_of xs d) (hashes_of ys d) in
      let ih = apply_patches-finish left (i + 1) (
        subst (λ t. length ys ≤ t * d) (let e : i + suc left ≡ (i + 1) + left = omega arith in e)
          cover) in
      elim (leq-cases (length ys) (i * d)) [
        | inl past ↦
            let behind : length ys ≤ (i + 1) * d =
              let up : i * d ≤ (i + 1) * d = grind arith in omega arith in
            let done : apply_patches d (make_patches ys d later) ys ≡ ok ys =
              subst (λ b. apply_patches d (make_patches ys d later) b ≡ ok ys)
                (past_end ((i + 1) * d) behind) ih in
            rw (past_end (i * d) past) (elim (Bool-cases (agree i)) [
              | inl same ↦ rw same done
              | inr differ ↦ rw differ (apply_patches-past i (make_patches ys d later) past done)
            ])
        | inr inside ↦ elim (Bool-cases (agree i)) [
          | inl same ↦ rw same (rw (kept i inside (same_chunk i inside same), end-next i) ih)
          | inr differ ↦
              rw (differ, make_patch-inside i inside, apply_patch-inside i inside, end-next i) ih
        ]
      ]

-- If no chunk of the receiver's state that lies inside the authoritative state has the hash of a
-- different chunk there, the repair that `build` makes turns the receiver's state into exactly the
-- authoritative one, for states of any two lengths, the second no longer than a slice can be, and
-- every chunk size.
pub apply-build :
    (xs ys : List ℕ) (chunk_size : ℕ)
    → length ys ≤ isize_max
    → NoCollision xs ys (max chunk_size 1)
    → apply (build xs ys chunk_size) xs ≡ ok ys
unfolding apply build build_manifest differing_chunks chunks
apply-build xs ys chunk_size small safe =
    let d = max chunk_size 1 in
    let pos : 0 < d = omega arith in
    let same_size : max d 1 ≡ d = omega arith in
    let rounds = max (length (hashes_of xs d)) (length (hashes_of ys d)) in
    let more : div_ceil (length ys) d * d ≤ rounds * d =
      mul-le-mul_right d (omega (arith, length-hashes_of ys d)) in
    let cover : length ys ≤ (0 + rounds) * d =
      subst (λ t. length ys ≤ t * d) (let e : rounds ≡ 0 + rounds = omega arith in e)
        (omega (arith, more, (div_ceil_bounds (length ys) d pos).0)) in
    let all = apply_patches-finish xs ys d pos small safe rounds 0 cover in
    let patches_eq : (build xs ys chunk_size).patches
        ≡ make_patches ys d (differing_from rounds 0 (hashes_of xs d) (hashes_of ys d)) =
      ap
        (λ s. make_patches ys d (
          differing_from (max (length (hashes_of xs s)) (length (hashes_of ys s))) 0
            (hashes_of xs s) (hashes_of ys s)))
        same_size in
    let zero_eq : resize xs (length ys) ≡ overlay ys (resize xs (length ys)) (0 * d) =
      sym (overlay-zero ys (resize xs (length ys)))
      ∙ ap (overlay ys (resize xs (length ys))) (omega arith) in
    let patched : apply_patches d (build xs ys chunk_size).patches (resize xs (length ys)) ≡ ok ys =
      ap (λ l. apply_patches d l (resize xs (length ys))) patches_eq
      ∙ ap
          (apply_patches d
            (make_patches ys d (differing_from rounds 0 (hashes_of xs d) (hashes_of ys d))))
          zero_eq
      ∙ all in
    >>=-ok _ patched (rw (==-eq-true (fnv1a64 ys) (fnv1a64 ys) refl) refl)
