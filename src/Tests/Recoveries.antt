-- ===== src/Tests/Recoveries.antt =====
-- A history of two packets, and a window of two sequences.
use delta_stream.Common.{◌≡◌, ◌⊎◌, refl, true, List, [], ◌∷◌, ◌++◌, some, checked_add, arith}
use delta_stream.Error.{ok}
use delta_stream.Packet.{Packet, delta_packet, snapshot_packet, encoded_len}
use delta_stream.Recovery.History.{
  RecoveryHistory, replay, snapshot, record_packet, missing, follow, plan, plan_from,
}
use delta_stream.Recovery.History.Bounds.{total_len, IsHistory, record_packet-IsHistory}
use delta_stream.Recovery.History.Replay.{IsServed, plan_cases}
use delta_stream.Recovery.Window.{
  ReplayWindow, is_in, contains, record_sequence, IsWindow, record_sequence-IsWindow,
}

abbrev second : Packet
second = delta_packet 2 1 9 7 (1 ∷ 2 ∷ [])

abbrev third : Packet
third = delta_packet 3 2 9 7 (5 ∷ [])

abbrev history : RecoveryHistory
history = record { packets = second ∷ []; max_packets = 1; max_bytes = 1000; bytes = 48 }

history-IsHistory : IsHistory history
unfolding total_len encoded_len
history-IsHistory = record { counted = refl; few = omega arith; small = omega arith }

record_packet-IsHistory_example :
    IsHistory (record_packet history third)
    × ((dropped : List Packet) × (dropped ++ (record_packet history third).packets
          ≡ history.packets ++ (third ∷ [])))
unfolding encoded_len
record_packet-IsHistory_example =
    record_packet-IsHistory history third history-IsHistory (omega arith)

abbrev both : RecoveryHistory
both = record { packets = second ∷ third ∷ []; max_packets = 8; max_bytes = 1000; bytes = 95 }

abbrev target : Packet
target = snapshot_packet 3 9 7 (0 ∷ 1 ∷ 2 ∷ [])

plan_cases_example :
    ((plan both (some 1) target ≡ ok (snapshot target))
      × ¬ ((ps : List Packet) × IsServed both (some 1) target ps))
    ⊎ ((ps : List Packet) × (plan both (some 1) target ≡ ok (replay ps))
        × IsServed both (some 1) target ps)
unfolding encoded_len
plan_cases_example = plan_cases both (some 1) target (omega arith) (omega arith)

-- A history whose first packet is a snapshot, which a replay from sequence 0 includes.
abbrev since_start : RecoveryHistory
since_start = record {
  packets = snapshot_packet 1 9 7 [] ∷ [];
  max_packets = 8;
  max_bytes = 1000;
  bytes = 46;
}

snapshot_replayed :
    plan since_start (some 0) (snapshot_packet 1 9 7 (0 ∷ []))
    ≡ ok (replay (snapshot_packet 1 9 7 [] ∷ []))
unfolding plan plan_from missing follow encoded_len checked_add
snapshot_replayed = refl

abbrev window : ReplayWindow
window = record { capacity = 2; seen = 4 ∷ 5 ∷ [] }

window-IsWindow : IsWindow window
unfolding is_in
window-IsWindow = record {
  positive = omega arith;
  bounded = omega arith;
  nodup = (refl, (refl, tt));
}

record_sequence-IsWindow_example :
    IsWindow (record_sequence window 6) × (contains (record_sequence window 6) 6 ≡ true)
record_sequence-IsWindow_example = record_sequence-IsWindow window 6 window-IsWindow
