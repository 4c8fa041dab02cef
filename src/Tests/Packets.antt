-- ===== src/Tests/Packets.antt =====
-- Packets, their images, and their compression.
use delta_stream.Common.{
  ℕ, ◌≤◌, ◌≡◌, ◌↔◌, refl, List, [], ◌∷◌, length, All, All-append, ◌++◌, IsByte, arith,
}
use delta_stream.Error.{ok}
use delta_stream.Packet.{
  Packet, default_config, snapshot_packet, encoded_len, zstd_candidate, logical_payload_with_config,
  is_compressed,
}
use delta_stream.Packet.Little.{to_le_bytes, to_le_bytes-IsByte}
use delta_stream.Packet.Codec.{decode_with_config, wire_bytes}
use delta_stream.Packet.RoundTrip.{IsPacket, Encodes, encode_lem, decode-encode}
use delta_stream.Packet.Reject.{IsImage, decode_iff}
use delta_stream.Packet.Compress.{zstd_candidate-logical, logical_payload_limit}
use delta_stream.Tests.{toy, toy-IsLawful, zeros, pack, is_zeros}

abbrev small : Packet
small = snapshot_packet 3 4 5 (6 ∷ 7 ∷ [])

small-IsPacket : IsPacket small
small-IsPacket = record {
  flags_u16 = omega arith;
  sequence_u64 = omega arith;
  base_sequence_u64 = omega arith;
  base_hash_u64 = omega arith;
  schema_hash_u64 = omega arith;
}

small-Encodes : Encodes small
small-Encodes = record { known = refl; small = omega arith }

decode-encode_example : decode_with_config toy (wire_bytes toy 3 small) default_config ≡ ok small
unfolding wire_bytes to_le_bytes
decode-encode_example =
    decode-encode toy toy-IsLawful small default_config (wire_bytes toy 3 small) small-IsPacket
      (encode_lem toy toy-IsLawful small small-Encodes) (omega arith)

behind : (k n : ℕ) (bytes : List ℕ) → All IsByte bytes → All IsByte (to_le_bytes k n ++ bytes)
behind k n bytes h = All-append IsByte (to_le_bytes k n) bytes (to_le_bytes-IsByte k n) h

image-IsByte : All IsByte (wire_bytes toy 2 small)
unfolding wire_bytes
image-IsByte =
    let words = behind 2 0 _ (
      behind 8 3 _ (
        behind 8 0 _ (
          behind 8 4 _ (
            behind 8 5 _ (
              behind 4 (toy.crc32 small.payload) _
                (behind 4 2 small.payload (omega arith, (omega arith, tt)))))))) in
    (omega arith, (omega arith, (omega arith, (omega arith, words))))

decode_iff_example :
    (decode_with_config toy (wire_bytes toy 2 small) default_config ≡ ok small)
    ↔ IsImage toy (wire_bytes toy 2 small) default_config small
decode_iff_example =
    decode_iff toy toy-IsLawful (wire_bytes toy 2 small) default_config small image-IsByte

abbrev large : Packet
large = snapshot_packet 3 4 5 (zeros 64)

abbrev large_packed : Packet
large_packed = record large { payload = 1 ∷ 64 ∷ []; flags = 1 }

large_packed_lem : zstd_candidate toy large 1 32 ≡ ok large_packed
unfolding zstd_candidate is_compressed pack zeros is_zeros
large_packed_lem = refl

zstd_candidate-logical_example :
    (logical_payload_with_config toy large_packed default_config ≡ ok (zeros 64))
    × (encoded_len large_packed ≤ encoded_len large)
unfolding zeros
zstd_candidate-logical_example =
    zstd_candidate-logical toy toy-IsLawful large 1 32 large_packed default_config refl
      (omega arith) (omega arith) large_packed_lem

logical_payload_limit_example : length (zeros 64) ≤ default_config.max_decompressed_bytes
unfolding zeros
logical_payload_limit_example =
    logical_payload_limit toy toy-IsLawful large_packed default_config (zeros 64)
      zstd_candidate-logical_example.0
