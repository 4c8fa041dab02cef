-- ===== src/Binary/AgentDelta.antt =====
-- `AgentDelta` of src/binary.rs: the fields in which a state differs from another.
pub mod Masks
pub mod Apply
use delta_stream.Common.{
  ℕ, ◌+◌, ◌%◌, ◌^◌, Bool, true, false, not, List, Option, none, some, bit_or, ◌==◌, leb,
  if◌then◌else◌, u64_max,
}
use delta_stream.Common.Bytes.{ℤ, pos, negsuc, minus, same_bytes}
use delta_stream.Error.{DeltaError, invalid_packet, text, Result, ok, err, ◌>>=◌}
use delta_stream.State.{AgentState, f32_eq}
use delta_stream.Binary.Words.{to_bits, from_bits}

abbrev pub field_agent_id : ℕ
field_agent_id = 1

abbrev pub field_model : ℕ
field_model = 2

abbrev pub field_status : ℕ
field_status = 4

abbrev pub field_task : ℕ
field_task = 8

abbrev pub field_progress : ℕ
field_progress = 16

abbrev pub field_tokens : ℕ
field_tokens = 32

abbrev pub field_memory_mb : ℕ
field_memory_mb = 64

abbrev pub field_cpu_percent : ℕ
field_cpu_percent = 128

abbrev pub field_files_processed : ℕ
field_files_processed = 256

abbrev pub field_current_file : ℕ
field_current_file = 512

pub record AgentDelta : Type 0 where
  pub mask : ℕ
  pub agent_id : Option (List ℕ)
  pub model : Option (List ℕ)
  pub status : Option (List ℕ)
  pub task : Option (List ℕ)
  pub progress_delta : Option ℤ
  pub tokens_delta : Option ℤ
  pub memory_mb_delta : Option ℤ
  pub cpu_percent : Option ℕ
  pub files_processed_delta : Option ℤ
  pub current_file : Option (List ℕ)

-- What one block of `between` does to the mask and to its field, where the values differ.
unfoldable pub mark : Bool → ℕ → ℕ → ℕ
mark differ bit mask = if differ then bit_or mask bit else mask

unfoldable pub when {ℓ} : {A : Type ℓ} → Bool → A → Option A
when differ value = if differ then some value else none

unfoldable pub differs : List ℕ → List ℕ → Bool
differs old new = not (same_bytes old new)

unfoldable pub between : AgentState → AgentState → AgentDelta
unfolding mark when differs
between old new =
    let mask_ = mark (differs old.agent_id new.agent_id) field_agent_id 0 in
    let mask_ = mark (differs old.model new.model) field_model mask_ in
    let mask_ = mark (differs old.status new.status) field_status mask_ in
    let mask_ = mark (differs old.task new.task) field_task mask_ in
    let mask_ = mark (not (old.progress == new.progress)) field_progress mask_ in
    let mask_ = mark (not (old.tokens == new.tokens)) field_tokens mask_ in
    let mask_ = mark (not (old.memory_mb == new.memory_mb)) field_memory_mb mask_ in
    let mask_ = mark (not (f32_eq old.cpu_percent new.cpu_percent)) field_cpu_percent mask_ in
    let mask_ =
      mark (not (old.files_processed == new.files_processed)) field_files_processed mask_ in
    let mask_ = mark (differs old.current_file new.current_file) field_current_file mask_ in
    record {
      mask = mask_;
      agent_id = when (differs old.agent_id new.agent_id) new.agent_id;
      model = when (differs old.model new.model) new.model;
      status = when (differs old.status new.status) new.status;
      task = when (differs old.task new.task) new.task;
      progress_delta = when (not (old.progress == new.progress)) (minus new.progress old.progress);
      tokens_delta = when (not (old.tokens == new.tokens)) (minus new.tokens old.tokens);
      memory_mb_delta =
          when (not (old.memory_mb == new.memory_mb)) (minus new.memory_mb old.memory_mb);
      cpu_percent = when (not (f32_eq old.cpu_percent new.cpu_percent)) new.cpu_percent;
      files_processed_delta =
          when (not (old.files_processed == new.files_processed))
            (minus new.files_processed old.files_processed);
      current_file = when (differs old.current_file new.current_file) new.current_file;
    }

-- `base as i128 + delta` on the bits; where it overflows, it wraps, as an optimised build does.
unfoldable pub add_delta : ℕ → ℤ → ℤ
unfolding to_bits from_bits
add_delta base delta = from_bits ((base + to_bits delta) % 2 ^ 128)

-- `try_from` of an `i128` to an unsigned type.
unfoldable pub narrow : ℕ → ℤ → DeltaError → Result ℕ
narrow max_ (pos n) e = if leb n max_ then ok n else err e
narrow max_ (negsuc n) e = err e

unfoldable pub apply_u64_delta : ℕ → ℤ → Result ℕ
unfolding add_delta narrow
apply_u64_delta base delta =
    narrow u64_max (add_delta base delta) (invalid_packet (text "u64 delta overflow"))

unfoldable pub apply_u8_delta : ℕ → ℤ → Result ℕ
unfolding add_delta narrow
apply_u8_delta base delta =
    narrow 255 (add_delta base delta) (invalid_packet (text "u8 delta overflow"))

-- `if let Some(value)` of `apply`: a new value, or a delta on the old one.
unfoldable pub replace {ℓ} : {A : Type ℓ} → Option A → A → A
replace none old = old
replace (some value) old = value

unfoldable pub shift_by : (ℕ → ℤ → Result ℕ) → Option ℤ → ℕ → Result ℕ
shift_by apply_delta none old = ok old
shift_by apply_delta (some delta) old = apply_delta old delta

unfoldable pub apply : AgentDelta → AgentState → Result AgentState
unfolding apply_u64_delta apply_u8_delta replace shift_by
apply self base = do
  progress_ ← shift_by apply_u8_delta self.progress_delta base.progress
  tokens_ ← shift_by apply_u64_delta self.tokens_delta base.tokens
  memory_mb_ ← shift_by apply_u64_delta self.memory_mb_delta base.memory_mb
  files_processed_ ← shift_by apply_u64_delta self.files_processed_delta base.files_processed
  ok (record {
    agent_id = replace self.agent_id base.agent_id;
    model = replace self.model base.model;
    status = replace self.status base.status;
    task = replace self.task base.task;
    progress = progress_;
    tokens = tokens_;
    memory_mb = memory_mb_;
    cpu_percent = replace self.cpu_percent base.cpu_percent;
    files_processed = files_processed_;
    current_file = replace self.current_file base.current_file;
  })
