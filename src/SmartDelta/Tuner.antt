-- ===== src/SmartDelta/Tuner.antt =====
-- `AdaptiveTuner` of src/smart_delta.rs: the payload size from which compression is tried.
use delta_stream.Common.{
  ℕ, ◌*◌, ◌/◌, Bool, min, max, ltb, leb, if◌then◌else◌, saturating_add, u64_max,
}

pub record AdaptiveTuner : Type 0 where
  pub samples : ℕ
  pub compression_attempts : ℕ
  pub compression_wins : ℕ
  pub min_zstd_payload : ℕ

abbrev pub new_tuner : AdaptiveTuner
new_tuner = record {
  samples = 0;
  compression_attempts = 0;
  compression_wins = 0;
  min_zstd_payload = 256;
}

unfoldable pub should_try_zstd : AdaptiveTuner → ℕ → Bool
should_try_zstd t payload_len = leb (max t.min_zstd_payload 64) payload_len

-- The rates are compared as fractions. The code divides as `f64`; its counts are at most 32 when
-- it compares, where the division by 32 is exact and both comparisons agree with these.
unfoldable pub retune : AdaptiveTuner → AdaptiveTuner
retune t =
    if leb 32 t.compression_attempts
    then record t {
      min_zstd_payload =
          if ltb (t.compression_wins * 10) t.compression_attempts
          then min (max (min (t.min_zstd_payload * 2) u64_max) 64) (64 * 1024)
          else if ltb (t.compression_attempts * 6) (t.compression_wins * 10)
          then max (t.min_zstd_payload / 2) 64
          else t.min_zstd_payload;
      compression_attempts = 0;
      compression_wins = 0;
    }
    else t

unfoldable pub observe_compression : AdaptiveTuner → ℕ → ℕ → AdaptiveTuner
unfolding retune
observe_compression t before after = retune (record {
  samples = saturating_add t.samples 1;
  compression_attempts = saturating_add t.compression_attempts 1;
  compression_wins =
      if ltb after before then saturating_add t.compression_wins 1 else t.compression_wins;
  min_zstd_payload = t.min_zstd_payload;
})
