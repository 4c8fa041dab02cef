-- ===== src/V30Sync.antt =====
-- `FastByteStateEncoder` of src/v30_sync.rs, which tries only the kinds that the advisor lists.
pub mod Deliver
pub mod Total
use delta_stream.Common.{
  ℕ, ◌+◌, ◌-◌, ◌^◌, ◌%◌, Bool, true, false, not, ◌&&◌, List, [], ◌∷◌, Option, none, some, ltb, leb,
  if◌then◌else◌, length, checked_add, saturating_add,
}
use delta_stream.Error.{invalid_state, Result, ok, err}
use delta_stream.Hash.{fnv1a64}
use delta_stream.Libraries.{Libraries}
use delta_stream.Packet.{
  Packet, snapshot_packet, delta_packet, encoded_len, is_compressed, zstd_candidate,
}
use delta_stream.SmartDelta.Kind.{SmartDeltaKind, SmartDeltaCandidate, SmartDeltaPolicy}
use delta_stream.SmartDelta.Dispatch.{encode_candidate}
use delta_stream.FastSelector.{
  Floats, ChangeProfile, SelectorPolicy, StrategyAdvisor, new_advisor, analyze, shortlist,
  should_compress, observe_winner, observe_no_delta, observe_compression,
}
use delta_stream.Runtime.{RuntimeMetrics, new_metrics}

pub record V30Policy : Type 0 where
  pub smart_delta : SmartDeltaPolicy
  pub selector : SelectorPolicy
  pub enable_zstd : Bool
  pub zstd_level : ℕ
  pub min_zstd_payload : ℕ
  pub min_compression_savings : ℕ

pub data V30EncodeMode : Type 0 where
  snapshot snapshot_zstd : V30EncodeMode
  delta delta_zstd : SmartDeltaKind → V30EncodeMode

pub record V30Decision : Type 0 where
  pub mode : V30EncodeMode
  pub profile : Option ChangeProfile
  pub candidates_considered : ℕ
  pub selected_bytes : ℕ
  pub snapshot_bytes : ℕ

pub record FastByteStateEncoder : Type 0 where
  pub sequence : ℕ
  pub previous : Option (List ℕ)
  pub schema_hash : ℕ
  pub policy : V30Policy
  pub advisor : StrategyAdvisor
  pub metrics : RuntimeMetrics
  pub last_decision : Option V30Decision

-- `with_policy`; the schema name is given by its bytes.
unfoldable pub with_policy : List ℕ → V30Policy → FastByteStateEncoder
with_policy schema_name policy_ = record {
  sequence = 0;
  previous = none;
  schema_hash = fnv1a64 schema_name;
  policy = policy_;
  advisor = new_advisor policy_.selector;
  metrics = new_metrics;
  last_decision = none;
}

-- The local variables of `encode`, with the advisor that it feeds.
pub record Hunt : Type 0 where
  pub best : Packet
  pub mode : V30EncodeMode
  pub considered : ℕ
  pub profile : Option ChangeProfile
  pub advisor : StrategyAdvisor

-- The variables after a step, and whether the step failed.
abbrev pub Stage : Type 0
Stage = Hunt × Result (Unit {0})

-- `?` on a step: the rest runs only if the step did not fail.
unfoldable pub then_stage : Stage → (Hunt → Stage) → Stage
then_stage (h, err e) rest = (h, err e)
then_stage (h, ok _) rest = rest h

module _ (lib : Libraries) (floats : Floats) (policy : V30Policy) where
  -- `if delta.encoded_len() < best.encoded_len()`
  unfoldable pub weigh_delta : Packet → SmartDeltaKind → Hunt → Hunt
  weigh_delta packet kind_ h =
      if ltb (encoded_len packet) (encoded_len h.best)
      then record h { best = packet; mode = delta kind_; considered = h.considered + 1 }
      else record h { considered = h.considered + 1 }

  -- What follows a successful compression of the delta.
  unfoldable pub weigh_compressed : Packet → SmartDeltaKind → Packet → Hunt → Hunt
  weigh_compressed packet kind_ compressed h =
      let won = is_compressed compressed && ltb (encoded_len compressed) (encoded_len packet) in
      let advisor_ = observe_compression h.advisor won in
      if is_compressed compressed && ltb (encoded_len compressed) (encoded_len h.best)
      then record h {
        best = compressed;
        mode = delta_zstd kind_;
        considered = h.considered + 1;
        advisor = advisor_;
      }
      else record h { considered = h.considered + 1; advisor = advisor_ }

  unfoldable pub try_compressed : Packet → SmartDeltaKind → Hunt → Stage
  try_compressed packet kind_ h =
      if policy.enable_zstd
        && should_compress floats h.advisor (length packet.payload) policy.min_zstd_payload
      then elim (zstd_candidate lib packet policy.zstd_level policy.min_compression_savings) [
        | err e ↦ (h, err e)
        | ok compressed ↦ (weigh_compressed packet kind_ compressed h, ok tt)
      ]
      else (h, ok tt)

  -- The body of the loop over the short list; `make` builds the delta packet of a payload.
  unfoldable pub try_kind : (List ℕ → Packet) → List ℕ → List ℕ → SmartDeltaKind → Hunt → Stage
  try_kind make previous_ current kind_ h =
      elim (encode_candidate kind_ previous_ current policy.smart_delta) [
        | err e ↦ (h, err e)
        | ok candidate ↦
            let packet = make candidate.payload in
            try_compressed packet kind_ (weigh_delta packet kind_ h)
      ]

  unfoldable pub try_kinds :
      (List ℕ → Packet) → List ℕ → List ℕ → List SmartDeltaKind → Hunt → Stage
  try_kinds make previous_ current [] h = (h, ok tt)
  try_kinds make previous_ current (k ∷ ks) h =
      then_stage (try_kind make previous_ current k h) λ h'. try_kinds make previous_ current ks h'

  -- The match on the mode behind the loop.
  unfoldable pub observe_mode : V30EncodeMode → StrategyAdvisor → StrategyAdvisor
  observe_mode snapshot advisor_ = observe_no_delta advisor_
  observe_mode snapshot_zstd advisor_ = observe_no_delta advisor_
  observe_mode (delta k) advisor_ = observe_winner advisor_ k
  observe_mode (delta_zstd k) advisor_ = observe_winner advisor_ k

  -- The first state: the snapshot, compressed where that is smaller.
  unfoldable pub try_first : List ℕ → Hunt → Stage
  try_first current h =
      if policy.enable_zstd && leb policy.min_zstd_payload (length current)
      then elim (zstd_candidate lib h.best policy.zstd_level policy.min_compression_savings) [
        | err e ↦ (h, err e)
        | ok compressed ↦ (
          (if is_compressed compressed && ltb (encoded_len compressed) (encoded_len h.best)
              then record h {
                best = compressed;
                mode = snapshot_zstd;
                considered = h.considered + 1;
              }
              else record h { considered = h.considered + 1 }),
          ok tt,
        )
      ]
      else (h, ok tt)

  -- The whole search, from the snapshot on.
  unfoldable pub hunt_packet : ℕ → ℕ → Option (List ℕ) → List ℕ → Hunt → Stage
  hunt_packet sequence_ schema_hash_ none current h = try_first current h
  hunt_packet sequence_ schema_hash_ (some previous_) current h =
      let profile_ = analyze previous_ current in
      then_stage
        (try_kinds (delta_packet sequence_ (sequence_ - 1) (fnv1a64 previous_) schema_hash_)
          previous_ current (shortlist floats h.advisor profile_)
          (record h { profile = some profile_ }))
        λ h'. (record h' { advisor = observe_mode h'.mode h'.advisor }, ok tt)

-- Whether a mode counts as a snapshot, and whether as compressed.
unfoldable pub is_snapshot : V30EncodeMode → Bool
is_snapshot snapshot = true
is_snapshot snapshot_zstd = true
is_snapshot (delta k) = false
is_snapshot (delta_zstd k) = false

unfoldable pub is_zstd : V30EncodeMode → Bool
is_zstd snapshot = false
is_zstd snapshot_zstd = true
is_zstd (delta k) = false
is_zstd (delta_zstd k) = true

-- `+= 1` on a `u64`, as it wraps in a release build.
unfoldable pub bump : Bool → ℕ → ℕ
bump yes_ n = if yes_ then (n + 1) % 2 ^ 64 else n

unfoldable pub count_packet : RuntimeMetrics → List ℕ → Hunt → RuntimeMetrics
count_packet metrics_ current h = record metrics_ {
  encoded_packets = saturating_add metrics_.encoded_packets 1;
  input_bytes = saturating_add metrics_.input_bytes (length current);
  output_bytes = saturating_add metrics_.output_bytes (encoded_len h.best);
  selector_candidates = saturating_add metrics_.selector_candidates h.considered;
  snapshots = bump (is_snapshot h.mode) metrics_.snapshots;
  deltas = bump (not (is_snapshot h.mode)) metrics_.deltas;
  compressed_packets = bump (is_zstd h.mode) metrics_.compressed_packets;
}

-- What `encode` leaves behind: on an error the sequence and the advisor have moved on already.
unfoldable pub finish :
    FastByteStateEncoder → ℕ → List ℕ → Stage → FastByteStateEncoder × Result Packet
finish self sequence_ current (h, err e) =
    (record self { sequence = sequence_; advisor = h.advisor }, err e)
finish self sequence_ current (h, ok _) = (
  record {
    sequence = sequence_;
    previous = some current;
    schema_hash = self.schema_hash;
    policy = self.policy;
    advisor = h.advisor;
    metrics = count_packet self.metrics current h;
    last_decision = some (record {
      mode = h.mode;
      profile = h.profile;
      candidates_considered = h.considered;
      selected_bytes = encoded_len h.best;
      snapshot_bytes =
          encoded_len (snapshot_packet sequence_ (fnv1a64 current) self.schema_hash current);
    });
  },
  ok h.best,
)

unfoldable pub encode :
    Libraries → Floats → FastByteStateEncoder → List ℕ → FastByteStateEncoder × Result Packet
unfolding finish
encode lib floats self current = elim (checked_add self.sequence 1) [
  | none ↦ (self, err (invalid_state "sequence exhausted"))
  | some sequence_ ↦ finish self sequence_ current (
      hunt_packet lib floats self.policy sequence_ self.schema_hash self.previous current (record {
        best = snapshot_packet sequence_ (fnv1a64 current) self.schema_hash current;
        mode = snapshot;
        considered = 1;
        profile = none;
        advisor = self.advisor;
      }))
]

unfoldable pub recovery_snapshot : FastByteStateEncoder → List ℕ → Result Packet
recovery_snapshot self current =
    ok (snapshot_packet self.sequence (fnv1a64 current) self.schema_hash current)
