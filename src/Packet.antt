-- ===== src/Packet.antt =====
-- src/packet.rs: the packet, its wire format, and the optional compression of its payload.
pub mod Little
pub mod Codec
pub mod RoundTrip
pub mod Reject
pub mod Compress
use delta_stream.Common.{
  ℕ, ◌+◌, ◌*◌, ◌^◌, Bool, true, false, not, List, bit_and, bit_or, ◌==◌, ltb, leb, ◌||◌, ◌&&◌,
  if◌then◌else◌, some, length, saturating_add,
}
use delta_stream.Error.{Result, ok, err, fail_if, ◌>>=◌, ◌>>◌, decompressed_payload_too_large}
use delta_stream.Libraries.{Libraries, zstd_result}

abbrev pub min_wire_version : ℕ
min_wire_version = 2

abbrev pub wire_version : ℕ
wire_version = 3

abbrev pub header_len : ℕ
header_len = 46

abbrev pub flag_compressed_zstd : ℕ
flag_compressed_zstd = 1

-- `!KNOWN_FLAGS` on 16 bits.
abbrev pub unknown_flags : ℕ
unknown_flags = 0xfffe

abbrev pub max_wire_payload : ℕ
max_wire_payload = 64 * 1024 * 1024

abbrev pub max_logical_payload : ℕ
max_logical_payload = 64 * 1024 * 1024

pub record DecodeConfig : Type 0 where
  pub max_packet_bytes : ℕ
  pub max_decompressed_bytes : ℕ

abbrev pub default_config : DecodeConfig
default_config = record {
  max_packet_bytes = header_len + max_wire_payload;
  max_decompressed_bytes = max_logical_payload;
}

pub data PacketKind : Type 0 where
  snapshot delta : PacketKind

pub record Packet : Type 0 where
  pub kind : PacketKind
  pub flags : ℕ
  pub sequence : ℕ
  pub base_sequence : ℕ
  pub base_hash : ℕ
  pub schema_hash : ℕ
  pub payload : List ℕ

-- `Packet::snapshot`
abbrev pub snapshot_packet : ℕ → ℕ → ℕ → List ℕ → Packet
snapshot_packet sequence_ state_hash schema_hash_ payload_ = record {
  kind = snapshot;
  flags = 0;
  sequence = sequence_;
  base_sequence = 0;
  base_hash = state_hash;
  schema_hash = schema_hash_;
  payload = payload_;
}

-- `Packet::delta`
abbrev pub delta_packet : ℕ → ℕ → ℕ → ℕ → List ℕ → Packet
delta_packet sequence_ base_sequence_ base_hash_ schema_hash_ payload_ = record {
  kind = delta;
  flags = 0;
  sequence = sequence_;
  base_sequence = base_sequence_;
  base_hash = base_hash_;
  schema_hash = schema_hash_;
  payload = payload_;
}

unfoldable pub encoded_len : Packet → ℕ
encoded_len p = header_len + length p.payload

unfoldable pub is_compressed : Packet → Bool
is_compressed p = not (bit_and p.flags flag_compressed_zstd == 0)

module _ (lib : Libraries) where
  -- The compressed packet where that saves at least `min_savings` bytes, else the packet itself.
  unfoldable pub zstd_candidate : Packet → ℕ → ℕ → Result Packet
  zstd_candidate p level min_savings =
      if is_compressed p || ltb (length p.payload) 64
      then ok p
      else (zstd_result (lib.compress level p.payload) >>= λ compressed.
          if leb (length p.payload) (saturating_add (length compressed) min_savings)
          then ok p
          else ok (record p { payload = compressed; flags = bit_or p.flags flag_compressed_zstd }))

  unfoldable pub logical_payload_with_config : Packet → DecodeConfig → Result (List ℕ)
  logical_payload_with_config p config =
      if not (is_compressed p)
      then if ltb config.max_decompressed_bytes (length p.payload)
        then err
            (decompressed_payload_too_large config.max_decompressed_bytes (some (length p.payload)))
        else ok p.payload
      else zstd_result (lib.decompress p.payload config.max_decompressed_bytes)

  unfoldable pub logical_payload : Packet → Result (List ℕ)
  unfolding logical_payload_with_config
  logical_payload p = logical_payload_with_config p default_config
