-- ===== src/SmartDelta/Xor.antt =====
-- `encode_xor` and `apply_xor` of src/smart_delta.rs.
pub mod RoundTrip
use delta_stream.Common.{
  ℕ, ◌+◌, ◌-◌, ◌≡◌, refl, Bool, ◌||◌, not, List, [], ◌∷◌, ◌++◌, bit_xor, ◌==◌, length, drop,
}
use delta_stream.Error.{Result, ok, err, fail_if, ◌>>=◌, ◌>>◌}
use delta_stream.Varint.{put_var_u64, read_var_u64}
use delta_stream.SmartDelta.Kind.{tag_xor, packet_error}

-- `a.iter().zip(b).map(|(&a, &b)| a ^ b)`, which ends with the shorter side.
pub xor_zip : List ℕ → List ℕ → List ℕ
xor_zip [] bs = []
xor_zip (a ∷ as') [] = []
xor_zip (a ∷ as') (b ∷ bs) = bit_xor a b ∷ xor_zip as' bs

unfoldable pub encode_xor : List ℕ → List ℕ → List ℕ
unfolding xor_zip
encode_xor previous current =
    put_var_u64 (tag_xor ∷ []) (length current) ++ xor_zip previous current

unfoldable pub apply_xor : List ℕ → List ℕ → Result (List ℕ)
unfolding xor_zip
apply_xor base bytes = do
  (len, cursor) ← read_var_u64 bytes 0
  fail_if (not (len == length base) || not (length bytes - cursor == len))
      (packet_error "xor delta length mismatch")
  ok (xor_zip base (drop cursor bytes))
