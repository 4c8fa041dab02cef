-- ===== src/ByteSync/Encoder.antt =====
-- `ByteStateEncoder` of src/byte_sync.rs.
use delta_stream.Common.{
  ℕ, ◌+◌, ◌-◌, Bool, ◌&&◌, List, [], ◌∷◌, Option, none, some, ltb, if◌then◌else◌, length,
  checked_add, saturating_add,
}
use delta_stream.Error.{invalid_state, Result, ok, err}
use delta_stream.Hash.{fnv1a64}
use delta_stream.Libraries.{Libraries}
use delta_stream.Packet.{
  Packet, snapshot_packet, delta_packet, encoded_len, is_compressed, zstd_candidate,
}
use delta_stream.SmartDelta.Kind.{SmartDeltaKind, SmartDeltaCandidate, SmartDeltaPolicy}
use delta_stream.SmartDelta.Tuner.{AdaptiveTuner, new_tuner, should_try_zstd, observe_compression}
use delta_stream.SmartDelta.Dispatch.{encode_candidates}

pub data ByteEncodeMode : Type 0 where
  snapshot snapshot_zstd : ByteEncodeMode
  delta delta_zstd : SmartDeltaKind → ByteEncodeMode

pub record ByteEncodeDecision : Type 0 where
  pub mode : ByteEncodeMode
  pub selected_bytes : ℕ
  pub snapshot_bytes : ℕ
  pub candidates_considered : ℕ

pub record V25Policy : Type 0 where
  pub smart_delta : SmartDeltaPolicy
  pub enable_zstd : Bool
  pub zstd_level : ℕ
  pub min_compression_savings : ℕ
  pub compression_cpu_penalty_bytes : ℕ

pub record ByteStateEncoder : Type 0 where
  pub sequence : ℕ
  pub previous : Option (List ℕ)
  pub schema_hash : ℕ
  pub policy : V25Policy
  pub tuner : AdaptiveTuner
  pub last_decision : Option ByteEncodeDecision

-- `with_policy`; the schema name is given by its bytes.
unfoldable pub with_policy : List ℕ → V25Policy → ByteStateEncoder
with_policy schema_name policy_ = record {
  sequence = 0;
  previous = none;
  schema_hash = fnv1a64 schema_name;
  policy = policy_;
  tuner = new_tuner;
  last_decision = none;
}

-- The local variables of the search, with the tuner that it feeds.
pub record Search : Type 0 where
  pub best : Packet
  pub mode : ByteEncodeMode
  pub best_score : ℕ
  pub considered : ℕ
  pub tuner : AdaptiveTuner

-- A search after a step, and whether the step failed.
abbrev pub Step : Type 0
Step = Search × Result (Unit {0})

-- `?` on a step: the rest runs only if the step did not fail.
unfoldable pub then_step : Step → (Search → Step) → Step
then_step (s, err e) rest = (s, err e)
then_step (s, ok _) rest = rest s

module _ (lib : Libraries) (policy : V25Policy) where
  -- What follows a successful compression of `packet`.
  unfoldable pub weigh_compressed : Packet → ByteEncodeMode → Packet → Search → Search
  weigh_compressed packet mode_ compressed s =
      let score =
        saturating_add (encoded_len compressed)
          (if is_compressed compressed then policy.compression_cpu_penalty_bytes else 0) in
      let tuner_ = observe_compression s.tuner (encoded_len packet) (encoded_len compressed) in
      if is_compressed compressed && ltb score s.best_score
      then record {
        best = compressed;
        mode = mode_;
        best_score = score;
        considered = s.considered + 1;
        tuner = tuner_;
      }
      else record s { considered = s.considered + 1; tuner = tuner_ }

  -- The block that tries zstd on `packet`; it stands twice in the source, for the snapshot and
  -- for each delta. An error leaves the search as it was.
  unfoldable pub try_compressed : Packet → ByteEncodeMode → Search → Step
  try_compressed packet mode_ s =
      if policy.enable_zstd && should_try_zstd s.tuner (length packet.payload)
      then elim (zstd_candidate lib packet policy.zstd_level policy.min_compression_savings) [
        | err e ↦ (s, err e)
        | ok compressed ↦ (weigh_compressed packet mode_ compressed s, ok tt)
      ]
      else (s, ok tt)

  -- `if delta.encoded_len() < best_score`
  unfoldable pub weigh_delta : Packet → SmartDeltaKind → Search → Search
  weigh_delta packet kind_ s =
      if ltb (encoded_len packet) s.best_score
      then record {
        best = packet;
        mode = delta kind_;
        best_score = encoded_len packet;
        considered = s.considered + 1;
        tuner = s.tuner;
      }
      else record s { considered = s.considered + 1 }

  -- The loop over the candidates; `make` builds the delta packet of a payload.
  unfoldable pub try_candidates : (List ℕ → Packet) → List SmartDeltaCandidate → Search → Step
  try_candidates make [] s = (s, ok tt)
  try_candidates make (c ∷ cs) s =
      let packet = make c.payload in
      then_step (try_compressed packet (delta_zstd c.kind) (weigh_delta packet c.kind s))
        λ s'. try_candidates make cs s'

  -- The deltas against a previous state, if there is one.
  unfoldable pub try_deltas : ℕ → ℕ → Option (List ℕ) → List ℕ → Search → Step
  try_deltas sequence_ schema_hash_ none current s = (s, ok tt)
  try_deltas sequence_ schema_hash_ (some previous_) current s =
      elim (encode_candidates previous_ current policy.smart_delta) [
        | err e ↦ (s, err e)
        | ok candidates ↦
            try_candidates (delta_packet sequence_ (sequence_ - 1) (fnv1a64 previous_) schema_hash_)
              candidates s
      ]

  -- The whole search, from the snapshot on.
  unfoldable pub search_packet : ℕ → ℕ → Option (List ℕ) → AdaptiveTuner → List ℕ → Step
  search_packet sequence_ schema_hash_ previous_ tuner_ current =
      let packet = snapshot_packet sequence_ (fnv1a64 current) schema_hash_ current in
      let start : Search = record {
        best = packet;
        mode = snapshot;
        best_score = encoded_len packet;
        considered = 1;
        tuner = tuner_;
      } in
      then_step (try_compressed packet snapshot_zstd start)
        λ s. try_deltas sequence_ schema_hash_ previous_ current s

-- What `encode` leaves behind: on an error the sequence and the tuner have moved on already.
unfoldable pub finish : ByteStateEncoder → ℕ → List ℕ → Step → ByteStateEncoder × Result Packet
finish self sequence_ current (s, err e) =
    (record self { sequence = sequence_; tuner = s.tuner }, err e)
finish self sequence_ current (s, ok _) = (
  record {
    sequence = sequence_;
    previous = some current;
    schema_hash = self.schema_hash;
    policy = self.policy;
    tuner = s.tuner;
    last_decision = some (record {
      mode = s.mode;
      selected_bytes = encoded_len s.best;
      snapshot_bytes =
          encoded_len (snapshot_packet sequence_ (fnv1a64 current) self.schema_hash current);
      candidates_considered = s.considered;
    });
  },
  ok s.best,
)

unfoldable pub encode : Libraries → ByteStateEncoder → List ℕ → ByteStateEncoder × Result Packet
unfolding finish
encode lib self current = elim (checked_add self.sequence 1) [
  | none ↦ (self, err (invalid_state "sequence exhausted"))
  | some sequence_ ↦
      finish self sequence_ current
        (search_packet lib self.policy sequence_ self.schema_hash self.previous self.tuner current)
]

unfoldable pub recovery_snapshot : Libraries → ByteStateEncoder → List ℕ → Result Packet
recovery_snapshot lib self current =
    let packet = snapshot_packet self.sequence (fnv1a64 current) self.schema_hash current in
    if self.policy.enable_zstd && should_try_zstd self.tuner (length packet.payload)
    then zstd_candidate lib packet self.policy.zstd_level self.policy.min_compression_savings
    else ok packet
