-- ===== src/Varint/RoundTrip.antt =====
-- What `put_var_u64` writes in plain arithmetic, and that `read_var_u64` reads it back.
use native.Mathlib.Nat.{div-add-mod}
use native.Mathlib.Numerals.{towards_suc}
use delta_stream.Common.{
  ℕ, zero, suc, ◌+◌, ◌*◌, ◌/◌, ◌%◌, ◌^◌, ◌≤◌, ◌<◌, ◌≡◌, refl, ap, ◌∙◌, List, [], ◌∷◌, ◌++◌,
  append_assoc, bit_and, bit_or, leb, if◌then◌else◌, length, All, IsByte, IsU64, At, At-append,
  At-start, length-append, arith,
}
use delta_stream.Common.Bits.{low_bits, top_bit, set_top_bit}
use delta_stream.Common.Disjoint.{bit_or_disjoint}
use delta_stream.Error.{ok}
use delta_stream.Varint.{put_var_loop, put_var_u64, read_var_loop, read_var_u64}

-- The groups of seven bits of `v`, for `v` below 128 ^ (k + 1).
unfoldable pub groups : ℕ → ℕ → List ℕ
groups zero v = v ∷ []
groups (suc k) v =
    let rest = groups k (v / 128) in if leb 0x80 v then (v % 128 + 128) ∷ rest else v ∷ []

-- The bytes that a `u64` takes.
unfoldable pub var_bytes : ℕ → List ℕ
unfolding groups
var_bytes v = groups 9 v

group_byte : (v : ℕ) → bit_or (bit_and (v % 256) 0x7f) 0x80 ≡ v % 128 + 128
group_byte v = omega (
  arith,
  ap (λ t. bit_or t 0x80) (low_bits (v % 256) (omega arith)),
  set_top_bit (v % 256 % 128) (omega arith),
)

pub put_var_loop-groups :
    (k : ℕ) (out : List ℕ) (v : ℕ) → v < 128 ^ suc k → put_var_loop k out v ≡ out ++ groups k v
unfolding put_var_loop groups
put_var_loop-groups zero out v h = let e : v % 256 ≡ v = omega arith in rw e refl
put_var_loop-groups (suc k) out v h =
    let head : List ℕ = (v % 128 + 128) ∷ [] in
    ground (
      arith,
      group_byte v,
      put_var_loop-groups k (out ++ head) (v / 128) (omega arith),
      append_assoc out head (groups k (v / 128)),
    )

pub put_var_u64_lem : (out : List ℕ) (v : ℕ) → IsU64 v → put_var_u64 out v ≡ out ++ var_bytes v
unfolding put_var_u64 var_bytes
put_var_u64_lem out v h = put_var_loop-groups 9 out v (omega arith)

pub groups-IsByte : (k v : ℕ) → v < 128 ^ suc k → All IsByte (groups k v)
unfolding groups
groups-IsByte zero v h = omega arith
groups-IsByte (suc k) v h = ground (arith, groups-IsByte k (v / 128) (omega arith))

pub length-groups : (k v : ℕ) → (1 ≤ length (groups k v)) × (length (groups k v) ≤ k + 1)
unfolding groups
length-groups zero v = omega arith
length-groups (suc k) v = ground (arith, length-groups k (v / 128))

pub var_bytes-IsByte : (v : ℕ) → IsU64 v → All IsByte (var_bytes v)
unfolding var_bytes
var_bytes-IsByte v h = groups-IsByte 9 v (omega arith)

pub length-var_bytes : (v : ℕ) → (1 ≤ length (var_bytes v)) × (length (var_bytes v) ≤ 10)
unfolding var_bytes
length-var_bytes v = length-groups 9 v

-- One round of the reader, on a last byte and on an inner one.
last_byte :
    (w cursor value shift : ℕ) (rest : List ℕ)
    → w < 128
    → value < 2 ^ shift
    → IsU64 (value + w * 2 ^ shift)
    → read_var_loop (w ∷ rest) cursor value shift ≡ ok (value + w * 2 ^ shift, cursor + 1)
unfolding read_var_loop
last_byte w cursor value shift rest hw fits whole =
    ground (arith, low_bits w, top_bit w, bit_or_disjoint shift value w)

inner_byte :
    (g cursor value shift : ℕ) (rest : List ℕ)
    → g < 128
    → shift < 57
    → value < 2 ^ shift
    → IsU64 (value + g * 2 ^ shift)
    → read_var_loop ((g + 128) ∷ rest) cursor value shift
      ≡ read_var_loop rest (cursor + 1) (value + g * 2 ^ shift) (shift + 7)
unfolding read_var_loop
inner_byte g cursor value shift rest hg hs fits whole =
    ground (arith, low_bits (g + 128), top_bit (g + 128), bit_or_disjoint shift value g)

group_weight : (at : ℕ) → 128 * 2 ^ at ≡ 2 ^ (at + 7)
group_weight at = simp towards_suc (omega arith)

-- The lowest group of `v` and the groups above it, counted from bit `at` on.
pub groups_from : (at v : ℕ) → v % 128 * 2 ^ at + v / 128 * 2 ^ (at + 7) ≡ v * 2 ^ at
groups_from at v =
    let above = ap (λ (t : ℕ). v / 128 * t) (group_weight at) in
    let whole = ap (λ (t : ℕ). t * 2 ^ at) (div-add-mod v 128) in omega (arith, above, whole)

pub group_fits : (g value s : ℕ) → g < 128 → value < 2 ^ s → value + g * 2 ^ s < 2 ^ (s + 7)
group_fits g value s hg hv = grind (arith, group_weight s)

-- `w` is what is still to be read, and it counts from bit `shift` on.
read_var_loop-groups :
    (k w cursor value shift : ℕ) (rest : List ℕ)
    → w < 128 ^ suc k
    → shift + 7 * k ≤ 63
    → value < 2 ^ shift
    → IsU64 (value + w * 2 ^ shift)
    → read_var_loop (groups k w ++ rest) cursor value shift
      ≡ ok (value + w * 2 ^ shift, cursor + length (groups k w))
unfolding groups
read_var_loop-groups zero w cursor value shift rest hw hs hv fits =
    last_byte w cursor value shift rest hw hv fits
read_var_loop-groups (suc k) w cursor value shift rest hw hs hv fits = ground (
  arith,
  last_byte w cursor value shift rest,
  groups_from shift w,
  group_fits (w % 128) value shift,
  inner_byte (w % 128) cursor value shift (groups k (w / 128) ++ rest),
  read_var_loop-groups k (w / 128) (cursor + 1) (value + w % 128 * 2 ^ shift) (shift + 7) rest
      (omega arith),
)

-- At a position in front of the bytes of a `u64`, `read_var_u64` returns it and the position
-- behind them, whatever stands before and after.
pub read_var_u64-At :
    (bytes : List ℕ) (cursor v : ℕ) (rest : List ℕ)
    → IsU64 v
    → At bytes cursor (var_bytes v ++ rest)
    → read_var_u64 bytes cursor ≡ ok (v, cursor + length (var_bytes v))
unfolding read_var_u64 var_bytes
read_var_u64-At bytes cursor v rest h a = rw a.rest_eq (
    read_var_loop-groups 9 v cursor 0 0 rest (omega arith) (omega arith) (omega arith) (omega arith)
    ∙ ground arith)

-- Behind what was read the position stands at the rest.
pub At-var :
    (bytes : List ℕ) (cursor v : ℕ) (rest : List ℕ)
    → At bytes cursor (var_bytes v ++ rest)
    → At bytes (cursor + length (var_bytes v)) rest
At-var bytes cursor v rest a =
    At-append bytes cursor (cursor + length (var_bytes v)) (var_bytes v) rest a refl

-- A `u64` that `put_var_u64` appends to any bytes is read back by `read_var_u64` at their end,
-- whatever follows, and it takes at most ten bytes.
pub read_var_u64-put :
    (out rest : List ℕ) (v : ℕ)
    → IsU64 v
    → (read_var_u64 (put_var_u64 out v ++ rest) (length out) ≡ ok (v, length (put_var_u64 out v)))
      × (length (put_var_u64 out v) ≤ length out + 10)
read_var_u64-put out rest v h =
    let tail = var_bytes v ++ rest in
    let l = length-append out (var_bytes v) in
    let a : At (out ++ tail) (length out) tail =
      At-append (out ++ tail) 0 (length out) out tail (At-start (out ++ tail)) (omega arith) in
    rw (put_var_u64_lem out v h, append_assoc out (var_bytes v) rest, l)
      (read_var_u64-At (out ++ tail) (length out) v rest h a, omega (arith, (length-var_bytes v).1))
