-- ===== src/Libraries.antt =====
-- What the program takes from other crates: `crc32fast::hash`, and zstd's `bulk::compress` and
-- `bulk::decompress`. The code is not in the repository, so they are parameters; a failure carries
-- an opaque number in place of its text.
use delta_stream.Common.{ℕ, ◌≤◌, ◌<◌, ◌^◌, ◌≡◌, List, length, ◌⊎◌, inl, inr}
use delta_stream.Error.{Result, ok, err, compression}

pub record Libraries : Type 0 where
  pub crc32 : List ℕ → ℕ
  -- The level, and the bytes. The level is passed on unread, so its sign does not matter here.
  pub compress : ℕ → List ℕ → ℕ ⊎ List ℕ
  -- The bytes, and the most that may come out.
  pub decompress : List ℕ → ℕ → ℕ ⊎ List ℕ

-- The documented behaviour: a checksum is a `u32`, and decompression within a limit that fits
-- gives back what was compressed, and never
-- returns more than the limit.
pub record IsLawful (lib : Libraries) : Type 0 where
  pub crc32_u32 : (bytes : List ℕ) → lib.crc32 bytes < 2 ^ 32
  pub decompress-compress :
      (level limit : ℕ) (bytes packed : List ℕ)
      → lib.compress level bytes ≡ inr packed
      → length bytes ≤ limit
      → lib.decompress packed limit ≡ inr bytes
  pub decompress_limit :
      (packed bytes : List ℕ) (limit : ℕ)
      → lib.decompress packed limit ≡ inr bytes
      → length bytes ≤ limit

-- `map_err(|e| DeltaError::Compression(e.to_string()))`
abbrev pub zstd_result : ℕ ⊎ List ℕ → Result (List ℕ)
zstd_result (inl e) = err (compression e)
zstd_result (inr bytes) = ok bytes
