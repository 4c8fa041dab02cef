-- ===== src/Binary/Reader/Laws.antt =====
-- The reader on what the writers of src/binary.rs append.
use delta_stream.Common.{
  ℕ, zero, suc, ◌+◌, ◌-◌, ◌*◌, ◌/◌, ◌%◌, ◌^◌, ◌≤◌, ◌<◌, ◌≡◌, refl, subst, ap, ◌∙◌, true, List, [],
  ◌∷◌, ◌++◌, append_assoc, length, length-append, take, drop, take-append, At, At-append, length-At,
  checked_add-some, u64_max, isize_max, ltb-eq-false, arith,
}
use delta_stream.Common.Bits.{low_bits, top_bit}
use delta_stream.Common.Disjoint.{bit_or_disjoint}
use delta_stream.Common.Bytes.{ℤ}
use delta_stream.Error.{ok}
use delta_stream.Varint.RoundTrip.{groups, groups_from, group_fits}
use delta_stream.Packet.Little.{to_le_bytes, from_le_bytes-to_le_bytes, length-to_le_bytes}
use delta_stream.Binary.Words.{zigzag}
use delta_stream.Binary.Words.Laws.{wide_bytes, IsI128, zigzag-lt, unzigzag-zigzag}
use delta_stream.Binary.Utf8.{is_utf8}
use delta_stream.Binary.Reader.{
  take_bytes, read_u16, read_f32, var_u128_loop, var_u128, var_i128, read_string, finish,
}

pub take_bytes-At :
    (bytes : List ℕ) (at n : ℕ) (front rest : List ℕ)
    → length bytes ≤ isize_max
    → At bytes at (front ++ rest)
    → n ≡ length front
    → take_bytes bytes at n ≡ ok (front, at + n)
unfolding take_bytes
take_bytes-At bytes at n front rest small a e =
    let l = length-At bytes at (front ++ rest) a in
    let m = length-append front rest in
    let t : take (at + n - at) (drop at bytes) ≡ front =
      ap (take (at + n - at)) a.rest_eq ∙ take-append (at + n - at) front rest (omega arith) in
    rw (checked_add-some at n (omega arith), ltb-eq-false (length bytes) (at + n) (omega arith), t)
      refl

-- One round of the loop, on a last byte and on an inner one.
final_round :
    (w at value shift : ℕ) (rest : List ℕ)
    → w < 128
    → shift < 128
    → value < 2 ^ shift
    → value + w * 2 ^ shift < 2 ^ 128
    → var_u128_loop (w ∷ rest) at value shift ≡ ok (value + w * 2 ^ shift, at + 1)
unfolding var_u128_loop
final_round w at value shift rest hw hs fits whole =
    ground (arith, low_bits w, top_bit w, bit_or_disjoint shift value w)

inner_round :
    (g at value shift : ℕ) (rest : List ℕ)
    → g < 128
    → shift < 121
    → value < 2 ^ shift
    → value + g * 2 ^ shift < 2 ^ 128
    → var_u128_loop ((g + 128) ∷ rest) at value shift
      ≡ var_u128_loop rest (at + 1) (value + g * 2 ^ shift) (shift + 7)
unfolding var_u128_loop
inner_round g at value shift rest hg hs fits whole =
    ground (arith, low_bits (g + 128), top_bit (g + 128), bit_or_disjoint shift value g)

var_u128_loop-groups :
    (k w at value shift : ℕ) (rest : List ℕ)
    → w < 128 ^ suc k
    → shift + 7 * k ≤ 126
    → value < 2 ^ shift
    → value + w * 2 ^ shift < 2 ^ 128
    → var_u128_loop (groups k w ++ rest) at value shift
      ≡ ok (value + w * 2 ^ shift, at + length (groups k w))
unfolding groups
var_u128_loop-groups zero w at value shift rest hw hs hv fits =
    final_round w at value shift rest hw (omega arith) hv fits
var_u128_loop-groups (suc k) w at value shift rest hw hs hv fits = ground (
  arith,
  final_round w at value shift rest,
  groups_from shift w,
  group_fits (w % 128) value shift,
  inner_round (w % 128) at value shift (groups k (w / 128) ++ rest),
  var_u128_loop-groups k (w / 128) (at + 1) (value + w % 128 * 2 ^ shift) (shift + 7) rest
      (omega arith),
)

pub var_u128-At :
    (bytes : List ℕ) (at v : ℕ) (rest : List ℕ)
    → v < 2 ^ 128
    → At bytes at (wide_bytes v ++ rest)
    → var_u128 bytes at ≡ ok (v, at + length (wide_bytes v))
unfolding var_u128 wide_bytes
var_u128-At bytes at v rest h a = rw a.rest_eq (
    var_u128_loop-groups 18 v at 0 0 rest (omega arith) (omega arith) (omega arith) (omega arith)
    ∙ ground arith)

pub var_i128-At :
    (bytes : List ℕ) (at : ℕ) (v : ℤ) (rest : List ℕ)
    → IsI128 v
    → At bytes at (wide_bytes (zigzag v) ++ rest)
    → var_i128 bytes at ≡ ok (v, at + length (wide_bytes (zigzag v)))
unfolding var_i128
var_i128-At bytes at v rest h a =
    rw (var_u128-At bytes at (zigzag v) rest (zigzag-lt v h) a, unzigzag-zigzag v h) refl

-- The bytes of a string: its length and its text.
abbrev pub string_bytes : List ℕ → List ℕ
string_bytes s = wide_bytes (length s) ++ s

pub read_string-At :
    (bytes : List ℕ) (at : ℕ) (s rest : List ℕ)
    → length bytes ≤ isize_max
    → is_utf8 s ≡ true
    → At bytes at (string_bytes s ++ rest)
    → read_string bytes at ≡ ok (s, at + length (string_bytes s))
unfolding read_string
read_string-At bytes at s rest small utf8 a =
    let w = wide_bytes (length s) in
    let a' : At bytes at (w ++ (s ++ rest)) = subst (At bytes at) (append_assoc w s rest) a in
    let m = length-append s rest in
    let l =
      length-At bytes (at + length w) (s ++ rest)
        (At-append bytes at (at + length w) w (s ++ rest) a' refl) in
    let len = var_u128-At bytes at (length s) (s ++ rest) (omega arith) a' in
    let text =
      take_bytes-At bytes (at + length w) (length s) s rest small
        (At-append bytes at (at + length w) w (s ++ rest) a' refl) refl in
    rw (len, ltb-eq-false u64_max (length s) (omega arith), text, utf8)
      (ap (λ (t : ℕ). ok (s, t)) (omega (arith, length-append w s)))

pub read_f32-At :
    (bytes : List ℕ) (at x : ℕ) (rest : List ℕ)
    → length bytes ≤ isize_max
    → x < 2 ^ 32
    → At bytes at (to_le_bytes 4 x ++ rest)
    → read_f32 bytes at ≡ ok (x, at + length (to_le_bytes 4 x))
unfolding read_f32
read_f32-At bytes at x rest small h a =
    let l = length-to_le_bytes 4 x in
    rw
      (
        take_bytes-At bytes at 4 (to_le_bytes 4 x) rest small a (omega arith),
        from_le_bytes-to_le_bytes 4 x (omega arith),
        l,
      )
      refl

pub read_u16-At :
    (bytes : List ℕ) (at x : ℕ) (rest : List ℕ)
    → length bytes ≤ isize_max
    → x < 2 ^ 16
    → At bytes at (to_le_bytes 2 x ++ rest)
    → read_u16 bytes at ≡ ok (x, at + length (to_le_bytes 2 x))
unfolding read_u16
read_u16-At bytes at x rest small h a =
    let l = length-to_le_bytes 2 x in
    rw
      (
        take_bytes-At bytes at 2 (to_le_bytes 2 x) rest small a (omega arith),
        from_le_bytes-to_le_bytes 2 x (omega arith),
        l,
      )
      refl

pub finish-At : (bytes : List ℕ) (at : ℕ) → At bytes at [] → finish bytes at ≡ ok tt
unfolding finish
finish-At bytes at a = let l = length-At bytes at [] a in ground arith
