-- ===== src/Adaptive.antt =====
-- src/adaptive.rs: the choice between a snapshot and a delta, each raw or compressed.
pub mod Choice
use delta_stream.Common.{
  ℕ, ◌+◌, ◌*◌, Bool, ◌&&◌, Option, none, some, ltb, leb, if◌then◌else◌, saturating_add,
}
use delta_stream.Error.{Result, ok, ◌>>=◌}
use delta_stream.Libraries.{Libraries}
use delta_stream.Packet.{Packet, encoded_len, is_compressed, zstd_candidate}

pub data EncodeMode : Type 0 where
  snapshot delta snapshot_zstd delta_zstd : EncodeMode

pub record EncodeDecision : Type 0 where
  pub mode : EncodeMode
  pub snapshot_bytes : ℕ
  pub delta_bytes : Option ℕ
  pub snapshot_zstd_bytes : Option ℕ
  pub delta_zstd_bytes : Option ℕ
  pub selected_bytes : ℕ

-- `EncodeDecision::initial`
abbrev pub initial : ℕ → Option ℕ → EncodeMode → ℕ → EncodeDecision
initial snapshot_bytes_ snapshot_zstd_bytes_ mode_ selected_bytes_ = record {
  mode = mode_;
  snapshot_bytes = snapshot_bytes_;
  delta_bytes = none;
  snapshot_zstd_bytes = snapshot_zstd_bytes_;
  delta_zstd_bytes = none;
  selected_bytes = selected_bytes_;
}

-- `max_delta_ratio` is an `f64`, kept as its bits; the level is passed on unread.
pub record AdaptivePolicy : Type 0 where
  pub min_delta_savings_bytes : ℕ
  pub max_delta_ratio : ℕ
  pub enable_zstd : Bool
  pub zstd_level : ℕ
  pub min_compression_savings_bytes : ℕ
  pub compression_cpu_penalty_bytes : ℕ

unfoldable pub score : AdaptivePolicy → Packet → ℕ
score self packet =
    saturating_add (encoded_len packet)
      (if is_compressed packet then self.compression_cpu_penalty_bytes else 0)

-- The local variables of `select`.
pub record Best : Type 0 where
  pub packet : Packet
  pub mode : EncodeMode
  pub score : ℕ

-- An `if` of `select`: where the test holds and the candidate scores lower, it is the best.
unfoldable pub improve : AdaptivePolicy → Bool → Packet → EncodeMode → Best → Best
unfolding score
improve self test packet_ mode_ b =
    if test && ltb (score self packet_) b.score
    then record { packet = packet_; mode = mode_; score = score self packet_ }
    else b

module _ (lib : Libraries) where
  -- The candidate that `enable_zstd` asks for.
  unfoldable pub compressed_form : AdaptivePolicy → Packet → Result Packet
  compressed_form self packet =
      if self.enable_zstd
      then zstd_candidate lib packet self.zstd_level self.min_compression_savings_bytes
      else ok packet

  unfoldable pub select_initial : AdaptivePolicy → Packet → Result (Packet × EncodeDecision)
  unfolding compressed_form score
  select_initial self packet = do
    compressed ← compressed_form self packet
    if self.enable_zstd
          && (is_compressed compressed && ltb (score self compressed) (score self packet))
        then ok (
          compressed,
          initial (encoded_len packet) (some (encoded_len compressed)) snapshot_zstd
              (encoded_len compressed),
        )
        else ok (
          packet,
          initial (encoded_len packet) (some (encoded_len compressed)) snapshot
              (encoded_len packet),
        )

-- Floating-point arithmetic is a parameter: whether delta / snapshot <= ratio.
module _ (ratio_at_most : ℕ → ℕ → ℕ → Bool) where
  unfoldable pub delta_allowed : AdaptivePolicy → ℕ → ℕ → Bool
  delta_allowed self snapshot_bytes_ delta_bytes_ =
      ltb 0 snapshot_bytes_
      && (ratio_at_most delta_bytes_ snapshot_bytes_ self.max_delta_ratio
          && leb (saturating_add delta_bytes_ self.min_delta_savings_bytes) snapshot_bytes_)

  -- The three comparisons of `select`, in their order.
  unfoldable pub best_of : AdaptivePolicy → Packet → Packet → Packet → Packet → Best
  unfolding delta_allowed improve score
  best_of self snapshot_ delta_ snapshot_zstd_ delta_zstd_ =
      let allowed = delta_allowed self (encoded_len snapshot_) (encoded_len delta_) in
      let b : Best = record { packet = snapshot_; mode = snapshot; score = score self snapshot_ } in
      let b =
        improve self (self.enable_zstd && is_compressed snapshot_zstd_) snapshot_zstd_ snapshot_zstd
          b in
      let b = improve self allowed delta_ delta b in
      improve self (self.enable_zstd && (allowed && is_compressed delta_zstd_)) delta_zstd_
        delta_zstd b

module _ (lib : Libraries) (ratio_at_most : ℕ → ℕ → ℕ → Bool) where
  unfoldable pub select : AdaptivePolicy → Packet → Packet → Result (Packet × EncodeDecision)
  unfolding compressed_form best_of
  select self snapshot_ delta_ = do
    snapshot_zstd_ ← compressed_form lib self snapshot_
    delta_zstd_ ← compressed_form lib self delta_
    let b = best_of ratio_at_most self snapshot_ delta_ snapshot_zstd_ delta_zstd_
    ok (
      b.packet,
      record {
        mode = b.mode;
        snapshot_bytes = encoded_len snapshot_;
        delta_bytes = some (encoded_len delta_);
        snapshot_zstd_bytes = some (encoded_len snapshot_zstd_);
        delta_zstd_bytes = some (encoded_len delta_zstd_);
        selected_bytes = encoded_len b.packet;
      },
    )
