-- ===== src/SmartDelta/Splice/RoundTrip.antt =====
-- `apply_splice` undoes `encode_splice`, for previous and current states of any lengths.
use mathlib.Core.Option
use delta_stream.Common.{
  ℕ, ◌+◌, ◌-◌, ◌≤◌, ◌≡◌, refl, ap, ap₂, ◌∙◌, sym, List, [], ◌∷◌, ◌++◌, append_assoc, length,
  length-take, length-drop, take, drop, take-take-drop, isize_max, append-nil, IsU64, At, At-start,
  length-At, slice?-At, arith, ltb-eq-false, checked_add-some, ==-eq-true, ==_refl,
}
use delta_stream.Error.{ok}
use delta_stream.Varint.{put_var_u64}
use delta_stream.Varint.RoundTrip.{
  var_bytes, length-var_bytes, put_var_u64_lem, read_var_u64-At, At-var,
}
use delta_stream.SmartDelta.Kind.{tag_splice, ensure_consumed, Restores}
use delta_stream.SmartDelta.Splice.{common_prefix, common_suffix, encode_splice, apply_splice}
use delta_stream.SmartDelta.Splice.Scan.{common-IsSplice}

-- The body behind the tag, for a prefix, a suffix and the bytes between them.
unfoldable pub splice_body : ℕ → ℕ → ℕ → List ℕ → List ℕ
splice_body n p s middle =
    var_bytes n ++ (var_bytes p ++ (var_bytes s ++ (var_bytes (length middle) ++ middle)))

put_splice :
    (n p s : ℕ) (middle : List ℕ)
    → IsU64 n
    → IsU64 p
    → IsU64 s
    → IsU64 (length middle)
    → put_var_u64 (put_var_u64 (put_var_u64 (put_var_u64 (tag_splice ∷ []) n) p) s) (length middle)
        ++ middle
      ≡ tag_splice ∷ splice_body n p s middle
unfolding splice_body
put_splice n p s middle hn hp hs hm =
    rw
      (
        put_var_u64_lem _ n hn,
        put_var_u64_lem _ p hp,
        put_var_u64_lem _ s hs,
        put_var_u64_lem _ (length middle) hm,
      )
      (simp append_assoc)

-- `apply_splice` on a body that fits the base.
apply_splice-body :
    (base : List ℕ) (p s : ℕ) (middle : List ℕ)
    → p + s ≤ length base
    → length base ≤ isize_max
    → length middle ≤ isize_max
    → apply_splice base (splice_body (p + length middle + s) p s middle)
      ≡ ok (take p base ++ (middle ++ drop (length base - s) base))
unfolding apply_splice splice_body ensure_consumed Option.bind
apply_splice-body base p s middle fits hb hm =
    let n = p + length middle + s in
    let m = length middle in
    let bytes = splice_body n p s middle in
    let r3 = var_bytes m ++ middle in
    let r2 = var_bytes s ++ r3 in
    let r1 = var_bytes p ++ r2 in
    let c1 = 0 + length (var_bytes n) in
    let c2 = c1 + length (var_bytes p) in
    let c3 = c2 + length (var_bytes s) in
    let c4 = c3 + length (var_bytes m) in
    let a0 : At bytes 0 (var_bytes n ++ r1) = At-start bytes in
    let a1 = At-var bytes 0 n r1 a0 in
    let a2 = At-var bytes c1 p r2 a1 in
    let a3 = At-var bytes c2 s r3 a2 in
    let a4 = At-var bytes c3 m middle a3 in
    let e1 = read_var_u64-At bytes 0 n r1 (omega arith) a0 in
    let e2 = read_var_u64-At bytes c1 p r2 (omega arith) a1 in
    let e3 = read_var_u64-At bytes c2 s r3 (omega arith) a2 in
    let e4 = read_var_u64-At bytes c3 m middle (omega arith) a3 in
    let whole = length-At bytes c4 middle a4 in
    let a4' : At bytes c4 (middle ++ []) = rw append-nil a4 in
    let slice = slice?-At bytes c4 (c4 + m) middle [] a4' refl in
    let l1 = length-var_bytes n in
    let l2 = length-var_bytes p in
    let l3 = length-var_bytes s in
    let l4 = length-var_bytes m in
    rw
      (
        e1,
        e2,
        e3,
        e4,
        ltb-eq-false (length base) p (omega arith),
        ltb-eq-false (length base - p) s (omega arith),
        checked_add-some c4 m (omega arith),
        slice,
        ==-eq-true (c4 + m) (length bytes) (sym whole),
        checked_add-some p m (omega arith),
        checked_add-some (p + m) s (omega arith),
        ==_refl n,
      )
      refl

-- A splice delta between states of any two lengths that fit `isize` starts with its tag, and
-- `apply_splice` turns the previous state into the current one.
pub splice-Restores :
    (previous current : List ℕ)
    → length previous ≤ isize_max
    → length current ≤ isize_max
    → Restores tag_splice (apply_splice previous) (encode_splice previous current) current
unfolding encode_splice
splice-Restores previous current hp hc =
    let p = common_prefix previous current in
    let s = common_suffix previous current p in
    let n = length current in
    let middle = take (n - s - p) (drop p current) in
    let i = common-IsSplice previous current in
    let in_p : p + s ≤ length previous = i.in_previous in
    let in_c : p + s ≤ length current = i.in_current in
    let m : length middle ≡ n - s - p =
      omega (arith, length-take (n - s - p) (drop p current), length-drop p current) in
    let total : n ≡ p + length middle + s = omega arith in
    let body = splice_body n p s middle in
    let applied : apply_splice previous body
        ≡ ok (take p previous ++ (middle ++ drop (length previous - s) previous)) =
      ap (λ k. apply_splice previous (splice_body k p s middle)) total
      ∙ apply_splice-body previous p s middle in_p hp (omega arith) in
    let joined : take p previous ++ (middle ++ drop (length previous - s) previous) ≡ current =
      ap₂ (λ front back. front ++ (middle ++ back)) i.front i.back
      ∙ take-take-drop p (n - s) current (omega arith) in
    (
      body,
      put_splice n p s middle (omega arith) (omega arith) (omega arith) (omega arith),
      applied ∙ ap ok joined,
    )
