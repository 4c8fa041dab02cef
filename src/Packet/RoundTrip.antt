-- ===== src/Packet/RoundTrip.antt =====
-- Decoding gives back an encoded packet, under every limit that the bytes fit.
use delta_stream.Common.{
  ℕ, ◌+◌, ◌≤◌, ◌<◌, ◌^◌, ◌≡◌, refl, ap, ◌∙◌, List, ◌++◌, bit_and, length, length-append, IsU64, At,
  At-append, slice?-At, ltb-eq-false, leb-eq-true, ==-eq-true, checked_add-some, arith,
}
use delta_stream.Error.{DeltaError, invalid_packet, text, ok}
use delta_stream.Libraries.{Libraries, IsLawful}
use delta_stream.Packet.{
  Packet, PacketKind, snapshot, delta, DecodeConfig, unknown_flags, max_wire_payload, wire_version,
  min_wire_version, header_len, encoded_len,
}
use delta_stream.Packet.Little.{to_le_bytes, length-to_le_bytes, from_le_bytes-to_le_bytes}
use delta_stream.Packet.Codec.{
  kind_byte, kind_of_byte, field, wire_bytes, encode, check_header, read_words, check_payload,
  decode_with_config,
}

-- The widths of the source's fields.
pub record IsPacket (p : Packet) : Type 0 where
  pub flags_u16 : p.flags < 2 ^ 16
  pub sequence_u64 : IsU64 p.sequence
  pub base_sequence_u64 : IsU64 p.base_sequence
  pub base_hash_u64 : IsU64 p.base_hash
  pub schema_hash_u64 : IsU64 p.schema_hash

-- A packet that `encode` accepts.
pub record Encodes (p : Packet) : Type 0 where
  pub known : bit_and p.flags unknown_flags ≡ 0
  pub small : length p.payload ≤ max_wire_payload

-- A word at a position of the bytes.
field-At :
    (bytes : List ℕ) (c d k n : ℕ) (rest : List ℕ) (e : DeltaError)
    → d ≡ c + k
    → n < 256 ^ k
    → At bytes c (to_le_bytes k n ++ rest)
    → (field bytes c d e ≡ ok n) × At bytes d rest
unfolding field
field-At bytes c d k n rest e eq fits a =
    let l = length-to_le_bytes k n in
    (
      rw (slice?-At bytes c d (to_le_bytes k n) rest a (omega arith))
          (ap ok (from_le_bytes-to_le_bytes k n fits)),
      At-append bytes c d (to_le_bytes k n) rest a (omega arith),
    )

kind_of_byte-kind_byte : (k : PacketKind) → kind_of_byte (kind_byte k) ≡ ok k
unfolding kind_of_byte kind_byte
kind_of_byte-kind_byte snapshot = refl
kind_of_byte-kind_byte delta = refl

module _ (lib : Libraries) (law : IsLawful lib) where
  pub encode_lem : (p : Packet) → Encodes p → encode lib p ≡ ok (wire_bytes lib wire_version p)
  unfolding encode
  encode_lem p h = ground arith

  pub encode-Encodes :
      (p : Packet) (bytes : List ℕ)
      → encode lib p ≡ ok bytes
      → Encodes p × (bytes ≡ wire_bytes lib wire_version p)
  unfolding encode
  encode-Encodes p bytes e = ground arith

  pub length-wire_bytes :
      (version : ℕ) (p : Packet) → length (wire_bytes lib version p) ≡ encoded_len p
  unfolding wire_bytes encoded_len
  length-wire_bytes version p = omega (arith, length-append {0}, length-to_le_bytes)

  -- The bytes of either supported version.
  pub decode-wire_bytes :
      (version : ℕ) (p : Packet) (config : DecodeConfig)
      → min_wire_version ≤ version
      → version ≤ wire_version
      → IsPacket p
      → Encodes p
      → encoded_len p ≤ config.max_packet_bytes
      → decode_with_config lib (wire_bytes lib version p) config ≡ ok p
  unfolding decode_with_config check_header read_words check_payload wire_bytes encoded_len
  decode-wire_bytes version p config lo hi w h fits =
      let bytes = wire_bytes lib version p in
      let r7 = to_le_bytes 4 (length p.payload) ++ p.payload in
      let r6 = to_le_bytes 4 (lib.crc32 p.payload) ++ r7 in
      let r5 = to_le_bytes 8 p.schema_hash ++ r6 in
      let r4 = to_le_bytes 8 p.base_hash ++ r5 in
      let r3 = to_le_bytes 8 p.base_sequence ++ r4 in
      let r2 = to_le_bytes 8 p.sequence ++ r3 in
      let r1 = to_le_bytes 2 p.flags ++ r2 in
      let n : length bytes ≡ encoded_len p = length-wire_bytes version p in
      let a1 : At bytes 4 r1 = record { bound = omega arith; rest_eq = refl } in
      let (f1, a2) =
        field-At bytes 4 6 2 p.flags r2 (invalid_packet (text "truncated flags")) refl w.flags_u16
          a1 in
      let (f2, a3) =
        field-At bytes 6 14 8 p.sequence r3 (invalid_packet (text "truncated sequence")) refl
          (omega arith) a2 in
      let (f3, a4) =
        field-At bytes 14 22 8 p.base_sequence r4 (invalid_packet (text "truncated base sequence"))
          refl (omega arith) a3 in
      let (f4, a5) =
        field-At bytes 22 30 8 p.base_hash r5 (invalid_packet (text "truncated base hash")) refl
          (omega arith) a4 in
      let (f5, a6) =
        field-At bytes 30 38 8 p.schema_hash r6 (invalid_packet (text "truncated schema hash")) refl
          (omega arith) a5 in
      let (f6, a7) =
        field-At bytes 38 42 4 (lib.crc32 p.payload) r7 (invalid_packet (text "truncated checksum"))
          refl (law.crc32_u32 p.payload) a6 in
      let (f7, a8) =
        field-At bytes 42 46 4 (length p.payload) p.payload
          (invalid_packet (text "truncated payload length")) refl (omega (arith, h.small)) a7 in
      rw
        (
          ltb-eq-false config.max_packet_bytes (length bytes) (omega arith),
          ltb-eq-false (length bytes) header_len (omega arith),
          leb-eq-true min_wire_version version lo,
          leb-eq-true version wire_version hi,
          kind_of_byte-kind_byte p.kind,
          f1,
          h.known,
          f2,
          f3,
          f4,
          f5,
          f6,
          f7,
          checked_add-some header_len (length p.payload) (omega (arith, h.small)),
          ltb-eq-false max_wire_payload (length p.payload) h.small,
          ltb-eq-false config.max_packet_bytes (header_len + length p.payload) (omega arith),
          ==-eq-true (length bytes) (header_len + length p.payload) (omega arith),
          a8.rest_eq,
          ==-eq-true (lib.crc32 p.payload) (lib.crc32 p.payload) refl,
        )
        refl

  -- A packet whose fields have their widths and that `encode` accepts is given back by
  -- `decode_with_config`, under every limit that the encoded bytes fit. The CRC library is assumed
  -- lawful.
  pub decode-encode :
      (p : Packet) (config : DecodeConfig) (bytes : List ℕ)
      → IsPacket p
      → encode lib p ≡ ok bytes
      → length bytes ≤ config.max_packet_bytes
      → decode_with_config lib bytes config ≡ ok p
  decode-encode p config bytes w e fits =
      let (h, eq) = encode-Encodes p bytes e in
      let n : length bytes ≡ encoded_len p = ap length eq ∙ length-wire_bytes wire_version p in
      rw eq (decode-wire_bytes wire_version p config (omega arith) (omega arith) w h (omega arith))
