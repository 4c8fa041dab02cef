-- ===== src/Recovery/History.antt =====
-- `RecoveryHistory` of src/recovery_history.rs.
pub mod Bounds
pub mod Replay
use delta_stream.Common.{
  ℕ, ◌+◌, ◌-◌, ◌*◌, Bool, true, false, ◌||◌, ◌&&◌, not, max, List, [], ◌∷◌, ◌++◌, Option, none,
  some, length, ltb, leb, ◌==◌, if◌then◌else◌, saturating_add, checked_add,
}
use delta_stream.Error.{Result, ok, err, ok_or, ◌>>=◌, invalid_state}
use delta_stream.Packet.{Packet, encoded_len}

pub data RecoveryPlan : Type 0 where
  replay : List Packet → RecoveryPlan
  snapshot : Packet → RecoveryPlan

-- The queue's front is the list's head.
pub record RecoveryHistory : Type 0 where
  pub packets : List Packet
  pub max_packets : ℕ
  pub max_bytes : ℕ
  pub bytes : ℕ

unfoldable pub new_history : ℕ → ℕ → RecoveryHistory
new_history max_packets_ max_bytes_ = record {
  packets = [];
  max_packets = max max_packets_ 1;
  max_bytes = max max_bytes_ 1;
  bytes = 0;
}

-- The loop that drops packets from the front until both limits hold.
unfoldable pub evict : ℕ → ℕ → List Packet → ℕ → List Packet × ℕ
evict max_packets_ max_bytes_ [] bytes_ = ([], bytes_)
evict max_packets_ max_bytes_ (old ∷ rest) bytes_ =
    let evicted = evict max_packets_ max_bytes_ rest (bytes_ - encoded_len old) in
    if ltb max_packets_ (length (old ∷ rest)) || ltb max_bytes_ bytes_
    then evicted
    else (old ∷ rest, bytes_)

-- `record`
unfoldable pub record_packet : RecoveryHistory → Packet → RecoveryHistory
record_packet self packet =
    let kept =
      evict self.max_packets self.max_bytes (self.packets ++ (packet ∷ []))
        (saturating_add self.bytes (encoded_len packet)) in
    record self { packets = kept.0; bytes = kept.1 }

-- The filter on the packets that the receiver misses.
unfoldable pub missing : ℕ → ℕ → List Packet → List Packet
missing first last [] = []
missing first last (p ∷ ps) =
    let rest = missing first last ps in
    if leb first p.sequence && leb p.sequence last then p ∷ rest else rest

-- The loop over the replay: the sequence expected behind it and its bytes, unless it breaks off.
unfoldable pub follow : ℕ → ℕ → List Packet → Option (ℕ × ℕ)
follow expected bytes_ [] = some (expected, bytes_)
follow expected bytes_ (p ∷ ps) =
    let rest = follow (saturating_add expected 1) (saturating_add bytes_ (encoded_len p)) ps in
    if not (p.sequence == expected) || not (p.base_sequence == expected - 1) then none else rest

-- The tests behind the loop.
unfoldable pub choose : Packet → List Packet → Option (ℕ × ℕ) → RecoveryPlan
choose snapshot_ replay_ none = snapshot snapshot_
choose snapshot_ replay_ (some (expected, bytes_)) =
    if not (expected - 1 == snapshot_.sequence) || leb (encoded_len snapshot_) bytes_
    then snapshot snapshot_
    else replay replay_

-- The replay, unless it is empty, broken or too long.
unfoldable pub plan_replay : Packet → ℕ → List Packet → RecoveryPlan
plan_replay snapshot_ required_first [] = snapshot snapshot_
plan_replay snapshot_ required_first (p ∷ ps) =
    choose snapshot_ (p ∷ ps) (follow required_first 0 (p ∷ ps))

-- The plan for a receiver that misses packets.
unfoldable pub plan_from : RecoveryHistory → ℕ → Packet → RecoveryPlan
unfolding plan_replay choose
plan_from self required_first snapshot_ =
    plan_replay snapshot_ required_first (missing required_first snapshot_.sequence self.packets)

unfoldable pub plan : RecoveryHistory → Option ℕ → Packet → Result RecoveryPlan
plan self none snapshot_ = ok (snapshot snapshot_)
plan self (some local) snapshot_ =
    if leb snapshot_.sequence local
    then ok (snapshot snapshot_)
    else (ok_or (checked_add local 1) (invalid_state "sequence exhausted") >>= λ required_first.
        ok (plan_from self required_first snapshot_))
