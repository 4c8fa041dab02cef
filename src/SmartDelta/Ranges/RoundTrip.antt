-- ===== src/SmartDelta/Ranges/RoundTrip.antt =====
-- `apply_ranges` undoes `encode_ranges` on states of one length, for every gap.
use delta_stream.Common.{
  ℕ, suc, ◌+◌, ◌-◌, ◌≤◌, ◌≡◌, refl, ap, ◌∙◌, sym, subst, List, [], ◌∷◌, ◌++◌, some, append_assoc,
  append-nil, length, length-take, length-drop, take, drop, isize_max, IsU64, At, At-start,
  At-append, length-At, slice?-At, arith, checked_add, checked_add-some, ==-eq-true,
}
use delta_stream.Error.{ok}
use delta_stream.Varint.RoundTrip.{var_bytes, put_var_u64_lem, read_var_u64-At, At-var}
use delta_stream.SmartDelta.Kind.{tag_ranges, ensure_consumed, Restores}
use delta_stream.SmartDelta.Overlay.{
  overlay, overlay-zero, overlay-length, overlay_same, copy_into?-overlay,
}
use delta_stream.SmartDelta.Ranges.{
  find_ranges, put_ranges, encode_ranges, apply_range_loop, apply_ranges,
}
use delta_stream.SmartDelta.Ranges.Scan.{Covers, find_ranges-Covers, length-find_ranges}

-- The bytes of the ranges, as `put_ranges` appends them.
range_bytes : List (ℕ × ℕ) → List ℕ → ℕ → List ℕ
range_bytes [] ys e = []
range_bytes ((start, end) ∷ rest) ys e =
    var_bytes (start - e)
    ++ (var_bytes (end - start) ++ (take (end - start) (drop start ys) ++ range_bytes rest ys end))

put_ranges-range_bytes :
    (l : List (ℕ × ℕ)) (xs ys : List ℕ) (e : ℕ) (out : List ℕ)
    → length ys ≤ isize_max
    → Covers xs ys e l
    → put_ranges l ys e out ≡ out ++ range_bytes l ys e
unfolding put_ranges range_bytes
put_ranges-range_bytes [] xs ys e out h c = sym (append-nil out)
put_ranges-range_bytes ((start, end) ∷ rest) xs ys e out h c =
    let copied = take (end - start) (drop start ys) in
    let (le, lt, fits, same, later) = c in
    let first = put_var_u64_lem out (start - e) (omega arith) in
    let second = put_var_u64_lem (out ++ var_bytes (start - e)) (end - start) (omega arith) in
    rw (first, second)
      (put_ranges-range_bytes rest xs ys end
          (((out ++ var_bytes (start - e)) ++ var_bytes (end - start)) ++ copied) h later
        ∙ simp append_assoc)

-- One round of the decoder moves the border from the end `e` of the last range to `end`.
apply_range_step :
    (left : ℕ) (bytes : List ℕ) (cursor : ℕ) (xs ys : List ℕ) (e start end : ℕ) (rest : List ℕ)
    → length xs ≡ length ys
    → length bytes ≤ isize_max
    → length ys ≤ isize_max
    → e ≤ start
    → start ≤ end
    → end ≤ length ys
    → overlay ys xs e ≡ overlay ys xs start
    → At bytes cursor (
        var_bytes (start - e)
        ++ (var_bytes (end - start) ++ (take (end - start) (drop start ys) ++ rest)))
    → (cursor' : ℕ) × (apply_range_loop (suc left) bytes cursor (overlay ys xs e) e
        ≡ apply_range_loop left bytes cursor' (overlay ys xs end) end)
      × At bytes cursor' rest
unfolding apply_range_loop
apply_range_step left bytes cursor xs ys e start end rest l big small p q r moved a =
    let copied = take (end - start) (drop start ys) in
    let n : length copied ≡ end - start =
      omega (arith, length-take (end - start) (drop start ys), length-drop start ys) in
    let c1 = cursor + length (var_bytes (start - e)) in
    let c2 = c1 + length (var_bytes (end - start)) in
    let c3 = c2 + (end - start) in
    let a1 = At-var bytes cursor (start - e) (var_bytes (end - start) ++ (copied ++ rest)) a in
    let a2 = At-var bytes c1 (end - start) (copied ++ rest) a1 in
    let a3 = At-append bytes c2 c3 copied rest a2 (omega arith) in
    let whole = length-At bytes c3 rest a3 in
    let from : checked_add e (start - e) ≡ some start =
      checked_add-some e (start - e) (omega arith) ∙ ap some (omega arith) in
    let to : checked_add start (end - start) ≡ some end =
      checked_add-some start (end - start) (omega arith) ∙ ap some (omega arith) in
    (
      c3,
      rw
          (
            read_var_u64-At bytes cursor (start - e) (var_bytes (end - start) ++ (copied ++ rest))
                (omega arith) a,
            read_var_u64-At bytes c1 (end - start) (copied ++ rest) (omega arith) a1,
            from,
            to,
            checked_add-some c2 (end - start) (omega arith),
            slice?-At bytes c2 c3 copied rest a2 (omega arith),
            moved,
            copy_into?-overlay ys xs start end l q r,
          )
          refl,
      a3,
    )

apply_range_loop-Covers :
    (l : List (ℕ × ℕ)) (bytes : List ℕ) (cursor : ℕ) (xs ys : List ℕ) (e : ℕ) (rest : List ℕ)
    → length xs ≡ length ys
    → length bytes ≤ isize_max
    → length ys ≤ isize_max
    → e ≤ length ys
    → Covers xs ys e l
    → At bytes cursor (range_bytes l ys e ++ rest)
    → (cursor' : ℕ) × (apply_range_loop (length l) bytes cursor (overlay ys xs e) e
        ≡ ok (ys, cursor'))
      × At bytes cursor' rest
unfolding apply_range_loop range_bytes
apply_range_loop-Covers [] bytes cursor xs ys e rest l big small h c a =
    let done : overlay ys xs e ≡ ys =
      overlay_same (length ys - e) e (length ys) ys xs (omega arith) l c
      ∙ overlay-length ys xs (length ys) (omega arith) (omega arith) in
    (cursor, ap (λ o. ok (o, cursor)) done, a)
apply_range_loop-Covers ((start, end) ∷ more) bytes cursor xs ys e rest l big small h c a =
    let (p, q, r, same, later) = c in
    let copied = take (end - start) (drop start ys) in
    let (c1, stepped, a1) =
      apply_range_step (length more) bytes cursor xs ys e start end
        (range_bytes more ys end ++ rest) l big small p (omega arith) r
        (overlay_same (start - e) e start ys xs (omega arith) l same)
        (subst (At bytes cursor)
          (append_assoc (var_bytes (start - e))
              (var_bytes (end - start) ++ (copied ++ range_bytes more ys end)) rest
            ∙ ap (λ t. var_bytes (start - e) ++ t)
                (append_assoc (var_bytes (end - start)) (copied ++ range_bytes more ys end) rest)
            ∙ ap (λ t. var_bytes (start - e) ++ (var_bytes (end - start) ++ t))
                (append_assoc copied (range_bytes more ys end) rest))
          a) in
    let (c2, done, a2) =
      apply_range_loop-Covers more bytes c1 xs ys end rest l big small r later a1 in
    (c2, stepped ∙ done, a2)

-- A range delta between states of equal length starts with its tag, and `apply_ranges` turns the
-- previous state into the current one, for every `max_gap`, if the state and the payload fit
-- `isize`.
pub ranges-Restores :
    (previous current : List ℕ) (max_gap : ℕ)
    → length previous ≡ length current
    → length current ≤ isize_max
    → length (encode_ranges previous current max_gap) ≤ isize_max
    → Restores tag_ranges (apply_ranges previous) (encode_ranges previous current max_gap) current
ranges-Restores previous current max_gap same h big =
    let n = length current in
    let l = find_ranges n previous current max_gap 0 in
    let count = length l in
    let fits : IsU64 count = omega (arith, length-find_ranges n previous current max_gap 0) in
    let covers =
      find_ranges-Covers n previous current max_gap 0 0 (omega arith) (omega arith)
        (λ j p q. absurd (omega arith)) in
    let written = range_bytes l current 0 in
    let body = var_bytes n ++ (var_bytes count ++ written) in
    let payload : encode_ranges previous current max_gap ≡ tag_ranges ∷ body =
      unfold encode_ranges in
      rw
        (
          put_var_u64_lem (tag_ranges ∷ []) n (omega arith),
          put_var_u64_lem (tag_ranges ∷ var_bytes n) count fits,
          put_ranges-range_bytes l previous current 0
              (tag_ranges ∷ (var_bytes n ++ var_bytes count)) h covers,
        )
        (ap (λ r. tag_ranges ∷ r) (append_assoc (var_bytes n) (var_bytes count) written)) in
    let short : length body ≤ isize_max = omega (arith, ap length payload) in
    let a0 = At-start body in
    let c1 = 0 + length (var_bytes n) in
    let c2 = c1 + length (var_bytes count) in
    let a1 = At-var body 0 n (var_bytes count ++ written) a0 in
    let a2 = At-var body c1 count written a1 in
    let (c3, done, a3) =
      apply_range_loop-Covers l body c2 previous current 0 [] same short h (omega arith) covers
        (subst (At body c2) (sym (append-nil written)) a2) in
    let done' : apply_range_loop count body c2 previous 0 ≡ ok (current, c3) =
      ap (λ o. apply_range_loop count body c2 o 0) (sym (overlay-zero current previous)) ∙ done in
    let whole : c3 ≡ length body = omega (arith, length-At body c3 [] a3) in
    (
      body,
      payload,
      unfold apply_ranges ensure_consumed in
          rw
            (
              read_var_u64-At body 0 n (var_bytes count ++ written) (omega arith) a0,
              ==-eq-true n (length previous) (sym same),
              read_var_u64-At body c1 count written fits a1,
              done',
              ==-eq-true c3 (length body) whole,
            )
            refl,
    )
