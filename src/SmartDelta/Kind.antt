-- ===== src/SmartDelta/Kind.antt =====
-- The kinds, tags and policy of src/smart_delta.rs, and the check that ends every decoder.
use delta_stream.Common.{ℕ, not, List, ◌∷◌, ◌==◌, ◌≡◌, length}
use delta_stream.Error.{DeltaError, invalid_packet, text, Result, ok, fail_if}

abbrev pub tag_sparse : ℕ
tag_sparse = 1

abbrev pub tag_ranges : ℕ
tag_ranges = 2

abbrev pub tag_xor : ℕ
tag_xor = 3

abbrev pub tag_splice : ℕ
tag_splice = 4

abbrev pub tag_chunks : ℕ
tag_chunks = 5

pub data SmartDeltaKind : Type 0 where
  sparse ranges xor splice chunks : SmartDeltaKind

pub record SmartDeltaCandidate : Type 0 where
  pub kind : SmartDeltaKind
  pub payload : List ℕ

pub record SmartDeltaPolicy : Type 0 where
  pub chunk_size : ℕ
  pub max_range_gap : ℕ

abbrev pub default_policy : SmartDeltaPolicy
default_policy = record { chunk_size = 1024; max_range_gap = 0 }

abbrev pub packet_error : Prim.Native.String.String → DeltaError
packet_error s = invalid_packet (text s)

unfoldable pub ensure_consumed : List ℕ → ℕ → Result (Unit {0})
ensure_consumed bytes cursor =
    fail_if (not (cursor == length bytes)) (packet_error "trailing smart delta bytes")

-- A payload with the given tag, whose body `decode` turns into `target`.
abbrev pub Restores : ℕ → (List ℕ → Result (List ℕ)) → List ℕ → List ℕ → Type 0
Restores tag decode payload target =
    (body : List ℕ) × (payload ≡ tag ∷ body) × (decode body ≡ ok target)
