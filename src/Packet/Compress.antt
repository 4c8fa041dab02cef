-- ===== src/Packet/Compress.antt =====
-- Compression keeps the logical payload and never grows the packet; decoding keeps its limit.
use delta_stream.Common.{
  ℕ, ◌≤◌, ◌≡◌, ◌⊎◌, refl, ap, ◌∙◌, inl, inr, Bool-cases, List, length, some, bit_or, ltb, leb, ◌||◌,
  if◌then◌else◌, saturating_add, u64_max, ltb-eq-false, arith,
}
use delta_stream.Error.{decompressed_payload_too_large, ok, err, ◌>>=◌, ok_injective, err-ne-ok}
use delta_stream.Libraries.{Libraries, IsLawful, zstd_result}
use delta_stream.Packet.{
  Packet, DecodeConfig, encoded_len, is_compressed, zstd_candidate, logical_payload_with_config,
  flag_compressed_zstd,
}

-- What `zstd_candidate` returns: the packet itself, or its compressed form, which is smaller.
pub data IsCandidate (lib : Libraries) (p : Packet) (level : ℕ) : Packet → Type 0 where
  kept : {q : Packet} → p ≡ q → IsCandidate lib p level q
  packed :
      {q : Packet} (bytes : List ℕ)
      → lib.compress level p.payload ≡ inr bytes
      → length bytes ≤ length p.payload
      → record p { payload = bytes; flags = bit_or p.flags flag_compressed_zstd } ≡ q
      → IsCandidate lib p level q

module _ (lib : Libraries) where
  pack_lem :
      (p : Packet) (level savings : ℕ) (packed_ : ℕ ⊎ List ℕ) (q : Packet)
      → lib.compress level p.payload ≡ packed_
      → length p.payload ≤ u64_max
      → (zstd_result packed_ >>= λ compressed.
          if leb (length p.payload) (saturating_add (length compressed) savings)
          then ok p
          else ok (record p { payload = compressed; flags = bit_or p.flags flag_compressed_zstd }))
        ≡ ok q
      → IsCandidate lib p level q
  pack_lem p level savings (inl e) q c fits h = absurd (err-ne-ok _ q h)
  pack_lem p level savings (inr bytes) q c fits h =
      elim (Bool-cases (leb (length p.payload) (saturating_add (length bytes) savings))) [
        | inl poor ↦ kept (ok_injective p q (rw poor at h))
        | inr good ↦ packed bytes c (ground arith) (ok_injective _ q (rw good at h))
      ]

  pub zstd_candidate-IsCandidate :
      (p : Packet) (level savings : ℕ) (q : Packet)
      → length p.payload ≤ u64_max
      → zstd_candidate lib p level savings ≡ ok q
      → IsCandidate lib p level q
  unfolding zstd_candidate
  zstd_candidate-IsCandidate p level savings q fits h =
      elim (Bool-cases (is_compressed p || ltb (length p.payload) 64)) [
        | inl skip ↦ kept (ok_injective p q (rw skip at h))
        | inr try ↦
            pack_lem p level savings (lib.compress level p.payload) q refl fits (rw try at h)
      ]

  -- What `zstd_candidate` returns for a packet without flags has that packet's payload as its
  -- logical payload and is no larger, under every limit that the payload fits, for every level and
  -- every saving that is asked for. The zstd library is assumed lawful.
  pub zstd_candidate-logical :
      (law : IsLawful lib) (p : Packet) (level savings : ℕ) (q : Packet) (config : DecodeConfig)
      → p.flags ≡ 0
      → length p.payload ≤ u64_max
      → length p.payload ≤ config.max_decompressed_bytes
      → zstd_candidate lib p level savings ≡ ok q
      → (logical_payload_with_config lib q config ≡ ok p.payload) × (encoded_len q ≤ encoded_len p)
  unfolding logical_payload_with_config encoded_len is_compressed
  zstd_candidate-logical law p level savings q config none_set wide fits h =
      logical q (zstd_candidate-IsCandidate p level savings q wide h)
    where
      plain : logical_payload_with_config lib p config ≡ ok p.payload
      plain = rw (none_set, ltb-eq-false config.max_decompressed_bytes (length p.payload) fits) refl

      logical :
          (q : Packet)
          → IsCandidate lib p level q
          → (logical_payload_with_config lib q config ≡ ok p.payload)
            × (encoded_len q ≤ encoded_len p)
      logical q (kept e) = rw (← e) (plain, omega arith)
      logical q (packed bytes c shorter e) =
          let back =
            law.decompress-compress level config.max_decompressed_bytes p.payload bytes c fits in
          rw (← e) (rw (none_set, back) refl, omega arith)

  -- No logical payload, compressed or not, is longer than the configured `max_decompressed_bytes`.
  -- The zstd library is assumed lawful.
  pub logical_payload_limit :
      (law : IsLawful lib) (p : Packet) (config : DecodeConfig) (bytes : List ℕ)
      → logical_payload_with_config lib p config ≡ ok bytes
      → length bytes ≤ config.max_decompressed_bytes
  unfolding logical_payload_with_config
  logical_payload_limit law p config bytes h = elim (Bool-cases (is_compressed p)) [
    | inl yes_ ↦
        unpacked (lib.decompress p.payload config.max_decompressed_bytes) refl (rw yes_ at h)
    | inr no_ ↦ raw (rw no_ at h)
  ]
    where
      unpacked :
          (r : ℕ ⊎ List ℕ)
          → lib.decompress p.payload config.max_decompressed_bytes ≡ r
          → zstd_result r ≡ ok bytes
          → length bytes ≤ config.max_decompressed_bytes
      unpacked (inl e) eq h = absurd (err-ne-ok _ bytes h)
      unpacked (inr out) eq h =
          law.decompress_limit p.payload bytes config.max_decompressed_bytes
            (eq ∙ ap inr (ok_injective out bytes h))

      raw :
          (if ltb config.max_decompressed_bytes (length p.payload)
              then err (
                  decompressed_payload_too_large config.max_decompressed_bytes
                    (some (length p.payload)))
              else ok p.payload)
            ≡ ok bytes
          → length bytes ≤ config.max_decompressed_bytes
      raw h = ground arith
