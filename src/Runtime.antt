-- ===== src/Runtime.antt =====
-- src/runtime.rs: the limits, the counters, and what to do with a slow client.
use delta_stream.Common.{ℕ, ◌-◌, ◌*◌, Option, none, some, leb, min, if◌then◌else◌, u64_max}

pub record RuntimeLimits : Type 0 where
  pub max_history_packets : ℕ
  pub max_history_bytes : ℕ
  pub max_pending_reorder : ℕ
  pub max_client_lag : ℕ
  pub max_recoveries_per_window : ℕ
  pub max_encode_work_bytes : ℕ

abbrev pub default_limits : RuntimeLimits
default_limits = record {
  max_history_packets = 512;
  max_history_bytes = 16 * 1024 * 1024;
  max_pending_reorder = 128;
  max_client_lag = 10000;
  max_recoveries_per_window = 64;
  max_encode_work_bytes = 8 * 1024 * 1024;
}

pub record RuntimeMetrics : Type 0 where
  pub encoded_packets : ℕ
  pub snapshots : ℕ
  pub deltas : ℕ
  pub compressed_packets : ℕ
  pub input_bytes : ℕ
  pub output_bytes : ℕ
  pub recovery_replays : ℕ
  pub recovery_snapshots : ℕ
  pub reorder_buffered : ℕ
  pub backpressure_events : ℕ
  pub selector_candidates : ℕ

abbrev pub new_metrics : RuntimeMetrics
new_metrics = record {
  encoded_packets = 0;
  snapshots = 0;
  deltas = 0;
  compressed_packets = 0;
  input_bytes = 0;
  output_bytes = 0;
  recovery_replays = 0;
  recovery_snapshots = 0;
  reorder_buffered = 0;
  backpressure_events = 0;
  selector_candidates = 0;
}

pub data BackpressureDecision : Type 0 where
  accept snapshot_and_catch_up drop_client : BackpressureDecision

unfoldable pub backpressure_decision : Option ℕ → ℕ → RuntimeLimits → BackpressureDecision
backpressure_decision none publisher_sequence limits = snapshot_and_catch_up
backpressure_decision (some local) publisher_sequence limits =
    let lag = publisher_sequence - local in
    if leb lag limits.max_client_lag
    then accept
    else if leb lag (min (limits.max_client_lag * 10) u64_max)
    then snapshot_and_catch_up
    else drop_client
