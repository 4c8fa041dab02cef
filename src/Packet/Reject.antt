-- ===== src/Packet/Reject.antt =====
-- What `decode_with_config` accepts: exactly the wire images of well-formed packets.
use delta_stream.Common.{
  ℕ, ◌+◌, ◌-◌, ◌≤◌, ◌<◌, ◌^◌, ◌≡◌, ◌↔◌, refl, sym, ap, ap₂, subst, ◌∙◌, List, [], ◌∷◌, ◌++◌,
  bit_and, length, length-take, length-drop, take, drop, slice?, get_or, take-append-drop,
  drop-drop, All, All-take, All-drop, IsByte, checked_add, arith,
}
use delta_stream.Error.{DeltaError, invalid_packet, text, ok, >>=-eq-ok, ok_injective}
use delta_stream.Libraries.{Libraries, IsLawful}
use delta_stream.Packet.{
  Packet, PacketKind, snapshot, delta, DecodeConfig, unknown_flags, max_wire_payload, wire_version,
  min_wire_version, header_len, encoded_len,
}
use delta_stream.Packet.Little.{
  to_le_bytes, from_le_bytes, to_le_bytes-from_le_bytes, from_le_bytes-lt,
}
use delta_stream.Packet.Codec.{
  kind_byte, kind_of_byte, field, wire_bytes, Words, check_header, read_words, check_payload,
  decode_with_config,
}
use delta_stream.Packet.RoundTrip.{IsPacket, Encodes, decode-wire_bytes}

-- A field that was read is a word of its width, and its bytes stand there.
field_inv :
    (bytes : List ℕ) (lo hi k n : ℕ) (e : DeltaError)
    → hi ≡ lo + k
    → All IsByte bytes
    → field bytes lo hi e ≡ ok n
    → (drop lo bytes ≡ to_le_bytes k n ++ drop hi bytes) × (n < 256 ^ k)
unfolding field slice?
field_inv bytes lo hi k n e eq all h =
    let part = take (hi - lo) (drop lo bytes) in
    let inside : (hi ≤ length bytes) × (from_le_bytes part ≡ n) = ground arith in
    let len : length part ≡ k =
      omega (arith, inside.0, length-take (hi - lo) (drop lo bytes), length-drop lo bytes) in
    let are : All IsByte part =
      All-take IsByte (hi - lo) (drop lo bytes) (All-drop IsByte lo bytes all) in
    let word : to_le_bytes k n ≡ part =
      ap (to_le_bytes k) (sym inside.1) ∙ to_le_bytes-from_le_bytes k part len are in
    (
      sym (
          ap₂ ◌++◌ word (sym (drop-drop lo (hi - lo) hi bytes (omega arith)))
          ∙ take-append-drop (hi - lo) (drop lo bytes)),
      subst (λ m. m < 256 ^ k) inside.1
          (subst (λ j. from_le_bytes part < 256 ^ j) len (from_le_bytes-lt part are)),
    )

four_bytes :
    (bytes : List ℕ)
    → 4 ≤ length bytes
    → bytes
      ≡ get_or bytes 0 0 ∷ get_or bytes 1 0 ∷ get_or bytes 2 0 ∷ get_or bytes 3 0 ∷ drop 4 bytes
four_bytes [] h = absurd (omega arith)
four_bytes (a ∷ []) h = absurd (omega arith)
four_bytes (a ∷ b ∷ []) h = absurd (omega arith)
four_bytes (a ∷ b ∷ c ∷ []) h = absurd (omega arith)
four_bytes (a ∷ b ∷ c ∷ d ∷ rest) h = refl

kind_of_byte_inv : (b : ℕ) (k : PacketKind) → kind_of_byte b ≡ ok k → b ≡ kind_byte k
unfolding kind_of_byte kind_byte
kind_of_byte_inv b snapshot h = ground arith
kind_of_byte_inv b delta h = ground arith

-- A wire image of a supported version, within the limit.
pub record IsImage (lib : Libraries) (bytes : List ℕ) (config : DecodeConfig) (p : Packet)
    : Type 0 where
  pub version : ℕ
  pub min_version : min_wire_version ≤ version
  pub max_version : version ≤ wire_version
  pub image : bytes ≡ wire_bytes lib version p
  pub widths : IsPacket p
  pub encodes : Encodes p
  pub fits : encoded_len p ≤ config.max_packet_bytes

-- What each stage of the decoder found.
record Header (bytes : List ℕ) (config : DecodeConfig) (k : PacketKind) : Type 0 where
  within : length bytes ≤ config.max_packet_bytes
  whole : header_len ≤ length bytes
  magic_d : get_or bytes 0 0 ≡ b'D'
  magic_s : get_or bytes 1 0 ≡ b'S'
  not_old : min_wire_version ≤ get_or bytes 2 0
  not_new : get_or bytes 2 0 ≤ wire_version
  kind_read : kind_of_byte (get_or bytes 3 0) ≡ ok k

check_header_inv :
    (bytes : List ℕ) (config : DecodeConfig) (k : PacketKind)
    → check_header bytes config ≡ ok k
    → Header bytes config k
unfolding check_header
check_header_inv bytes config k h = ground arith

record Reads (bytes : List ℕ) (w : Words) : Type 0 where
  flags_read : field bytes 4 6 (invalid_packet (text "truncated flags")) ≡ ok w.flags
  known : bit_and w.flags unknown_flags ≡ 0
  sequence_read : field bytes 6 14 (invalid_packet (text "truncated sequence")) ≡ ok w.sequence
  base_sequence_read :
      field bytes 14 22 (invalid_packet (text "truncated base sequence")) ≡ ok w.base_sequence
  base_hash_read : field bytes 22 30 (invalid_packet (text "truncated base hash")) ≡ ok w.base_hash
  schema_hash_read :
      field bytes 30 38 (invalid_packet (text "truncated schema hash")) ≡ ok w.schema_hash
  checksum_read : field bytes 38 42 (invalid_packet (text "truncated checksum")) ≡ ok w.checksum
  payload_len_read :
      field bytes 42 46 (invalid_packet (text "truncated payload length")) ≡ ok w.payload_len

read_words_inv : (bytes : List ℕ) (w : Words) → read_words bytes ≡ ok w → Reads bytes w
unfolding read_words
read_words_inv bytes w h = ground arith

record Checked (lib : Libraries) (bytes : List ℕ) (config : DecodeConfig) (w : Words)
    (payload : List ℕ) : Type 0 where
  small : w.payload_len ≤ max_wire_payload
  length_eq : length bytes ≡ header_len + w.payload_len
  payload_eq : payload ≡ drop header_len bytes
  checksum_eq : lib.crc32 payload ≡ w.checksum

check_payload_inv :
    (lib : Libraries) (bytes : List ℕ) (config : DecodeConfig) (w : Words) (payload : List ℕ)
    → check_payload lib bytes config w ≡ ok payload
    → Checked lib bytes config w payload
unfolding check_payload checked_add
check_payload_inv lib bytes config w payload h = ground arith

abbrev packet_of : PacketKind → Words → List ℕ → Packet
packet_of k w payload_ = record {
  kind = k;
  flags = w.flags;
  sequence = w.sequence;
  base_sequence = w.base_sequence;
  base_hash = w.base_hash;
  schema_hash = w.schema_hash;
  payload = payload_;
}

module _ (lib : Libraries) where
  decode_inv :
      (bytes : List ℕ) (config : DecodeConfig) (p : Packet)
      → decode_with_config lib bytes config ≡ ok p
      → (k : PacketKind) × (w : Words) × (payload : List ℕ) × Header bytes config k
        × Reads bytes w
        × Checked lib bytes config w payload
        × (packet_of k w payload ≡ p)
  unfolding decode_with_config
  decode_inv bytes config p h =
      let (k, ek, h1) = >>=-eq-ok (check_header bytes config) _ h in
      let (w, ew, h2) = >>=-eq-ok (read_words bytes) _ h1 in
      let (payload, ep, h3) = >>=-eq-ok (check_payload lib bytes config w) _ h2 in
      (
        k,
        w,
        payload,
        check_header_inv bytes config k ek,
        read_words_inv bytes w ew,
        check_payload_inv lib bytes config w payload ep,
        ok_injective (packet_of k w payload) p h3,
      )

  packet_of-IsImage :
      (bytes : List ℕ) (config : DecodeConfig) (k : PacketKind) (w : Words) (payload : List ℕ)
      → All IsByte bytes
      → Header bytes config k
      → Reads bytes w
      → Checked lib bytes config w payload
      → IsImage lib bytes config (packet_of k w payload)
  unfolding wire_bytes encoded_len
  packet_of-IsImage bytes config k w payload all h r c =
      let (d1, w1) = field_inv bytes 4 6 2 w.flags _ refl all r.flags_read in
      let (d2, w2) = field_inv bytes 6 14 8 w.sequence _ refl all r.sequence_read in
      let (d3, w3) = field_inv bytes 14 22 8 w.base_sequence _ refl all r.base_sequence_read in
      let (d4, w4) = field_inv bytes 22 30 8 w.base_hash _ refl all r.base_hash_read in
      let (d5, w5) = field_inv bytes 30 38 8 w.schema_hash _ refl all r.schema_hash_read in
      let (d6, w6) = field_inv bytes 38 42 4 w.checksum _ refl all r.checksum_read in
      let (d7, w7) = field_inv bytes 42 46 4 w.payload_len _ refl all r.payload_len_read in
      let len : length payload ≡ w.payload_len =
        omega (arith, ap length c.payload_eq, length-drop header_len bytes, c.length_eq) in
      let body : drop 4 bytes
          ≡ to_le_bytes 2 w.flags
            ++ (to_le_bytes 8 w.sequence
                ++ (to_le_bytes 8 w.base_sequence
                    ++ (to_le_bytes 8 w.base_hash
                        ++ (to_le_bytes 8 w.schema_hash
                            ++ (to_le_bytes 4 (lib.crc32 payload)
                                ++ (to_le_bytes 4 (length payload) ++ payload)))))) =
        rw (d1, d2, d3, d4, d5, d6, d7, c.checksum_eq, len, c.payload_eq) refl in
      record {
        version = get_or bytes 2 0;
        min_version = h.not_old;
        max_version = h.not_new;
        image =
            four_bytes bytes (omega (arith, h.whole))
            ∙ rw (h.magic_d, h.magic_s, kind_of_byte_inv (get_or bytes 3 0) k h.kind_read, body)
                refl;
        widths = record {
          flags_u16 = omega arith;
          sequence_u64 = omega arith;
          base_sequence_u64 = omega arith;
          base_hash_u64 = omega arith;
          schema_hash_u64 = omega arith;
        };
        encodes = record { known = r.known; small = omega (arith, c.small) };
        fits = omega (arith, h.within, c.length_eq);
      }

  -- `decode_with_config` accepts bytes as a packet exactly when they are the wire image of that
  -- packet in a supported version, the packet's fields have their widths, its flags are known, its
  -- payload is at most 64 MiB and the image fits the configured limit. All other bytes are
  -- rejected. The CRC library is assumed lawful.
  pub decode_iff :
      (law : IsLawful lib) (bytes : List ℕ) (config : DecodeConfig) (p : Packet)
      → All IsByte bytes
      → (decode_with_config lib bytes config ≡ ok p) ↔ IsImage lib bytes config p
  decode_iff law bytes config p all = (
    (λ h.
        let (k, w, payload, header, reads, checked, eq) = decode_inv bytes config p h in
        subst (IsImage lib bytes config) eq
          (packet_of-IsImage bytes config k w payload all header reads checked)),
    (λ i.
        subst (λ b. decode_with_config lib b config ≡ ok p) (sym i.image)
          (decode-wire_bytes lib law i.version p config i.min_version i.max_version i.widths
            i.encodes i.fits)),
  )
