-- ===== src/SmartDelta/Xor/RoundTrip.antt =====
-- `apply_xor` undoes `encode_xor`, and refuses a body of another length.
use delta_stream.Common.{
  ℕ, suc, ◌+◌, ◌≤◌, ◌≡◌, refl, ap, ap₂, List, [], ◌∷◌, ◌++◌, length, isize_max, At-start, length-At,
  arith,
}
use delta_stream.Common.Xor.{bit_xor_undo}
use delta_stream.Varint.RoundTrip.{var_bytes, put_var_u64_lem, read_var_u64-At, At-var}
use delta_stream.SmartDelta.Kind.{tag_xor, Restores}
use delta_stream.SmartDelta.Xor.{xor_zip, encode_xor, apply_xor}

xor_zip_undo : (as' bs : List ℕ) → length as' ≡ length bs → xor_zip as' (xor_zip as' bs) ≡ bs
unfolding xor_zip
xor_zip_undo [] [] e = refl
xor_zip_undo [] (b ∷ bs) e = absurd (omega arith)
xor_zip_undo (a ∷ as') [] e = absurd (omega arith)
xor_zip_undo (a ∷ as') (b ∷ bs) e = ap₂ ◌∷◌ (bit_xor_undo a b) (xor_zip_undo as' bs (omega arith))

length-xor_zip : (as' bs : List ℕ) → length as' ≡ length bs → length (xor_zip as' bs) ≡ length bs
unfolding xor_zip
length-xor_zip [] [] e = refl
length-xor_zip [] (b ∷ bs) e = absurd (omega arith)
length-xor_zip (a ∷ as') [] e = absurd (omega arith)
length-xor_zip (a ∷ as') (b ∷ bs) e = ap suc (length-xor_zip as' bs (omega arith))

-- An xor delta between states of equal length that fits `isize` starts with its tag, and
-- `apply_xor` turns the previous state into the current one.
pub xor-Restores :
    (previous current : List ℕ)
    → length previous ≡ length current
    → length current ≤ isize_max
    → Restores tag_xor (apply_xor previous) (encode_xor previous current) current
unfolding encode_xor apply_xor
xor-Restores previous current e h =
    let n = length current in
    let mixed = xor_zip previous current in
    let body = var_bytes n ++ mixed in
    let a = At-start body in
    let r = read_var_u64-At body 0 n mixed (omega arith) a in
    let a' = At-var body 0 n mixed a in
    let whole = length-At body (0 + length (var_bytes n)) mixed a' in
    (
      body,
      rw (put_var_u64_lem (tag_xor ∷ []) n (omega arith)),
      ground (
        arith,
        r,
        a'.rest_eq,
        length-xor_zip previous current e,
        xor_zip_undo previous current e,
      ),
    )
