-- ===== src/Recovery/History/Bounds.antt =====
-- The history keeps its limits and the newest packets.
use delta_stream.Common.{
  ℕ, ◌+◌, ◌-◌, ◌≤◌, ◌≡◌, refl, ap, inl, inr, ◌||◌, List, [], ◌∷◌, ◌++◌, length, ltb, Bool-cases,
  u64_max, saturating_add, arith,
}
use delta_stream.Packet.{Packet, encoded_len}
use delta_stream.Recovery.History.{RecoveryHistory, evict, record_packet}

unfoldable pub total_len : List Packet → ℕ
total_len [] = 0
total_len (p ∷ ps) = encoded_len p + total_len ps

-- The count of the bytes is right, and both limits hold.
pub record IsHistory (h : RecoveryHistory) : Type 0 where
  pub counted : h.bytes ≡ total_len h.packets
  pub few : length h.packets ≤ h.max_packets
  pub small : h.bytes ≤ h.max_bytes

-- What the loop leaves of the packets `ps`.
record Evicted (max_packets max_bytes : ℕ) (ps kept : List Packet) (bytes : ℕ) : Type 0 where
  counted : bytes ≡ total_len kept
  few : length kept ≤ max_packets
  small : bytes ≤ max_bytes
  dropped : List Packet
  is_suffix : dropped ++ kept ≡ ps

evict-Evicted :
    (m n : ℕ) (ps : List Packet) (bytes : ℕ)
    → bytes ≡ total_len ps
    → Evicted m n ps (evict m n ps bytes).0 (evict m n ps bytes).1
unfolding evict total_len
evict-Evicted m n [] bytes e = record {
  counted = e;
  few = omega arith;
  small = omega (arith, e);
  dropped = [];
  is_suffix = refl;
}
evict-Evicted m n (old ∷ rest) bytes e =
    elim (Bool-cases (ltb m (length (old ∷ rest)) || ltb n bytes)) [
      | inl over ↦
          let r = evict-Evicted m n rest (bytes - encoded_len old) (omega (arith, e)) in
          rw over (record {
            counted = r.counted;
            few = r.few;
            small = r.small;
            dropped = old ∷ r.dropped;
            is_suffix = ap (λ l. old ∷ l) r.is_suffix;
          })
      | inr fits ↦ rw fits (record {
        counted = e;
        few = ground arith;
        small = ground arith;
        dropped = [];
        is_suffix = refl;
      })
    ]

total_len-append :
    (ps : List Packet) (p : Packet) → total_len (ps ++ (p ∷ [])) ≡ total_len ps + encoded_len p
unfolding total_len
total_len-append [] p = omega arith
total_len-append (q ∷ ps) p = omega (arith, total_len-append ps p)

-- Recording a packet keeps the count of the bytes right and both limits of the history, and only
-- drops packets from the front, provided that the byte limit and the packet together do not
-- overflow.
pub record_packet-IsHistory :
    (h : RecoveryHistory) (p : Packet)
    → IsHistory h
    → h.max_bytes + encoded_len p ≤ u64_max
    → IsHistory (record_packet h p)
      × ((dropped : List Packet) × (dropped ++ (record_packet h p).packets ≡ h.packets ++ (p ∷ [])))
unfolding record_packet
record_packet-IsHistory h p i room =
    let sum : saturating_add h.bytes (encoded_len p) ≡ total_len (h.packets ++ (p ∷ [])) =
      omega (arith, i.counted, i.small, total_len-append h.packets p) in
    let r = evict-Evicted h.max_packets h.max_bytes (h.packets ++ (p ∷ [])) _ sum in
    (record { counted = r.counted; few = r.few; small = r.small }, (r.dropped, r.is_suffix))
