-- ===== src/Hash.antt =====
-- `fnv1a64` of src/sync.rs, with its wrapping multiplication.
use delta_stream.Common.{ℕ, ◌*◌, ◌%◌, ◌^◌, ◌≡◌, refl, bit_xor, List, [], ◌∷◌, IsU64, arith}

pub fnv1a_from : ℕ → List ℕ → ℕ
fnv1a_from hash [] = hash
fnv1a_from hash (b ∷ bytes) = fnv1a_from (bit_xor hash b * 0x100000001b3 % 2 ^ 64) bytes

unfoldable pub fnv1a64 : List ℕ → ℕ
unfolding fnv1a_from
fnv1a64 bytes = fnv1a_from 0xcbf29ce484222325 bytes

fnv1a_from-IsU64 : (hash : ℕ) (bytes : List ℕ) → IsU64 hash → IsU64 (fnv1a_from hash bytes)
unfolding fnv1a_from
fnv1a_from-IsU64 hash [] h = h
fnv1a_from-IsU64 hash (b ∷ bytes) h =
    fnv1a_from-IsU64 (bit_xor hash b * 0x100000001b3 % 2 ^ 64) bytes (omega arith)

pub fnv1a64-IsU64 : (bytes : List ℕ) → IsU64 (fnv1a64 bytes)
unfolding fnv1a64
fnv1a64-IsU64 bytes = fnv1a_from-IsU64 0xcbf29ce484222325 bytes (omega arith)

-- The published FNV-1a value of the text "a".
fnv1a64_of_a : fnv1a64 (0x61 ∷ []) ≡ 0xaf63dc4c8601ec8c
unfolding fnv1a64
fnv1a64_of_a = refl
