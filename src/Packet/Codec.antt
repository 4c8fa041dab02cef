-- ===== src/Packet/Codec.antt =====
-- `Packet::encode` and `Packet::decode_with_config` of src/packet.rs.
use mathlib.Core.Option
use delta_stream.Common.{
  ℕ, not, ◌||◌, ◌&&◌, List, ◌∷◌, ◌++◌, bit_and, ◌==◌, ltb, leb, if◌then◌else◌, length, drop, slice?,
  get_or, checked_add,
}
use delta_stream.Error.{
  DeltaError, invalid_packet, text, text_num, packet_too_large, protocol_version_range,
  checksum_mismatch, Result, ok, err, fail_if, ok_or, ◌>>=◌, ◌>>◌,
}
use delta_stream.Libraries.{Libraries}
use delta_stream.Packet.{
  Packet, PacketKind, snapshot, delta, DecodeConfig, unknown_flags, max_wire_payload, wire_version,
  min_wire_version, header_len,
}
use delta_stream.Packet.Little.{to_le_bytes, from_le_bytes}

-- `self.kind as u8`
unfoldable pub kind_byte : PacketKind → ℕ
kind_byte snapshot = 1
kind_byte delta = 2

unfoldable pub kind_of_byte : ℕ → Result PacketKind
kind_of_byte b =
    if b == 1
    then ok snapshot
    else if b == 2
    then ok delta
    else err (invalid_packet (text_num "unknown packet kind" b))

-- `from_le_bytes(bytes[lo..hi].try_into()?)`; the header check before it keeps the range inside.
unfoldable pub field : List ℕ → ℕ → ℕ → DeltaError → Result ℕ
field bytes lo hi e = ok_or (Option.map from_le_bytes (slice? bytes lo hi)) e

-- The words of the header as they are read.
pub record Words : Type 0 where
  pub flags : ℕ
  pub sequence : ℕ
  pub base_sequence : ℕ
  pub base_hash : ℕ
  pub schema_hash : ℕ
  pub checksum : ℕ
  pub payload_len : ℕ

-- The checks of `decode_with_config` up to the packet kind.
unfoldable pub check_header : List ℕ → DecodeConfig → Result PacketKind
check_header bytes config = do
  fail_if (ltb config.max_packet_bytes (length bytes))
      (packet_too_large config.max_packet_bytes (length bytes))
  fail_if (ltb (length bytes) header_len) (invalid_packet (text "packet shorter than header"))
  fail_if (not (get_or bytes 0 0 == b'D' && get_or bytes 1 0 == b'S'))
      (invalid_packet (text "bad magic"))
  let version = get_or bytes 2 0
  fail_if (not (leb min_wire_version version && leb version wire_version))
      (protocol_version_range version min_wire_version wire_version)
  kind_of_byte (get_or bytes 3 0)

-- The words behind the kind, with the check of the flags.
unfoldable pub read_words : List ℕ → Result Words
read_words bytes = do
  flags_ ← field bytes 4 6 (invalid_packet (text "truncated flags"))
  fail_if (not (bit_and flags_ unknown_flags == 0)) (invalid_packet (text "unknown packet flags"))
  sequence_ ← field bytes 6 14 (invalid_packet (text "truncated sequence"))
  base_sequence_ ← field bytes 14 22 (invalid_packet (text "truncated base sequence"))
  base_hash_ ← field bytes 22 30 (invalid_packet (text "truncated base hash"))
  schema_hash_ ← field bytes 30 38 (invalid_packet (text "truncated schema hash"))
  checksum_ ← field bytes 38 42 (invalid_packet (text "truncated checksum"))
  payload_len_ ← field bytes 42 46 (invalid_packet (text "truncated payload length"))
  ok (record {
    flags = flags_;
    sequence = sequence_;
    base_sequence = base_sequence_;
    base_hash = base_hash_;
    schema_hash = schema_hash_;
    checksum = checksum_;
    payload_len = payload_len_;
  })

module _ (lib : Libraries) where
  -- The wire image: magic, version, kind, flags, four words, checksum, length, payload.
  unfoldable pub wire_bytes : ℕ → Packet → List ℕ
  unfolding kind_byte
  wire_bytes version p =
      b'D'
      ∷ b'S'
      ∷ version
      ∷ kind_byte p.kind
      ∷ (to_le_bytes 2 p.flags
          ++ (to_le_bytes 8 p.sequence
              ++ (to_le_bytes 8 p.base_sequence
                  ++ (to_le_bytes 8 p.base_hash
                      ++ (to_le_bytes 8 p.schema_hash
                          ++ (to_le_bytes 4 (lib.crc32 p.payload)
                              ++ (to_le_bytes 4 (length p.payload) ++ p.payload)))))))

  unfoldable pub encode : Packet → Result (List ℕ)
  encode p = do
    fail_if (not (bit_and p.flags unknown_flags == 0))
        (invalid_packet (text "unknown packet flags"))
    fail_if (ltb max_wire_payload (length p.payload))
        (packet_too_large max_wire_payload (length p.payload))
    fail_if (ltb 0xffff_ffff (length p.payload)) (invalid_packet (text "payload too large"))
    ok (wire_bytes wire_version p)

  -- The checks of the lengths and of the checksum, and the payload.
  unfoldable pub check_payload : List ℕ → DecodeConfig → Words → Result (List ℕ)
  check_payload bytes config words = do
    expected_len ←
        ok_or (checked_add header_len words.payload_len)
          (invalid_packet (text "packet length arithmetic overflow"))
    fail_if (ltb max_wire_payload words.payload_len || ltb config.max_packet_bytes expected_len)
        (packet_too_large config.max_packet_bytes expected_len)
    fail_if (not (length bytes == expected_len)) (invalid_packet (text "payload length mismatch"))
    let payload_ = drop header_len bytes
    let actual = lib.crc32 payload_
    fail_if (not (actual == words.checksum)) (checksum_mismatch words.checksum actual)
    ok payload_

  unfoldable pub decode_with_config : List ℕ → DecodeConfig → Result Packet
  decode_with_config bytes config = do
    kind_ ← check_header bytes config
    words ← read_words bytes
    payload_ ← check_payload bytes config words
    ok (record {
      kind = kind_;
      flags = words.flags;
      sequence = words.sequence;
      base_sequence = words.base_sequence;
      base_hash = words.base_hash;
      schema_hash = words.schema_hash;
      payload = payload_;
    })
