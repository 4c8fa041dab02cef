-- ===== src/Binary/DeltaCodec.antt =====
-- `encode_agent_delta` and `decode_agent_delta` of src/binary.rs.
pub mod RoundTrip
use delta_stream.Common.{ℕ, List, ◌++◌, Option, none, some, bit_and, ◌==◌, if◌then◌else◌}
use delta_stream.Error.{invalid_state, Result, ok, ok_or, ◌>>=◌, ◌>>◌}
use delta_stream.Packet.Little.{to_le_bytes}
use delta_stream.Binary.Words.{put_var_i128}
use delta_stream.Binary.Reader.{Read, read_u16, read_f32, var_i128, read_string, finish}
use delta_stream.Binary.StateCodec.{put_string}
use delta_stream.Binary.AgentDelta.{
  AgentDelta, field_agent_id, field_model, field_status, field_task, field_progress, field_tokens,
  field_memory_mb, field_cpu_percent, field_files_processed, field_current_file,
}

unfoldable pub put_f32 : List ℕ → ℕ → List ℕ
put_f32 out value = out ++ to_le_bytes 4 value

-- One block of `encode_agent_delta`: the field's value, where the mask has its bit.
unfoldable pub put_field {ℓ} :
    {A : Type ℓ} → (List ℕ → A → List ℕ) → ℕ → ℕ → Option A → List ℕ → Result (List ℕ)
put_field put mask bit value out =
    if bit_and mask bit == 0
    then ok out
    else (ok_or value (invalid_state "delta mask/value mismatch") >>= λ v. ok (put out v))

unfoldable pub encode_agent_delta : AgentDelta → Result (List ℕ)
unfolding put_field put_f32 put_string put_var_i128
encode_agent_delta d = do
  out ← put_field put_string d.mask field_agent_id d.agent_id (to_le_bytes 2 d.mask)
  out ← put_field put_string d.mask field_model d.model out
  out ← put_field put_string d.mask field_status d.status out
  out ← put_field put_string d.mask field_task d.task out
  out ← put_field put_var_i128 d.mask field_progress d.progress_delta out
  out ← put_field put_var_i128 d.mask field_tokens d.tokens_delta out
  out ← put_field put_var_i128 d.mask field_memory_mb d.memory_mb_delta out
  out ← put_field put_f32 d.mask field_cpu_percent d.cpu_percent out
  out ← put_field put_var_i128 d.mask field_files_processed d.files_processed_delta out
  put_field put_string d.mask field_current_file d.current_file out

-- One block of `decode_agent_delta`.
unfoldable pub read_field :
    {A : Type 0} → (List ℕ → ℕ → Read A) → ℕ → ℕ → List ℕ → ℕ → Read (Option A)
read_field read mask bit bytes at =
    if bit_and mask bit == 0 then ok (none, at) else (read bytes at >>= λ r. ok (some r.0, r.1))

unfoldable pub decode_agent_delta : List ℕ → Result AgentDelta
unfolding read_field read_u16 read_f32 var_i128 read_string
decode_agent_delta bytes = do
  mask_ ← read_u16 bytes 0
  agent_id_ ← read_field read_string mask_.0 field_agent_id bytes mask_.1
  model_ ← read_field read_string mask_.0 field_model bytes agent_id_.1
  status_ ← read_field read_string mask_.0 field_status bytes model_.1
  task_ ← read_field read_string mask_.0 field_task bytes status_.1
  progress_ ← read_field var_i128 mask_.0 field_progress bytes task_.1
  tokens_ ← read_field var_i128 mask_.0 field_tokens bytes progress_.1
  memory_mb_ ← read_field var_i128 mask_.0 field_memory_mb bytes tokens_.1
  cpu_percent_ ← read_field read_f32 mask_.0 field_cpu_percent bytes memory_mb_.1
  files_processed_ ← read_field var_i128 mask_.0 field_files_processed bytes cpu_percent_.1
  current_file_ ← read_field read_string mask_.0 field_current_file bytes files_processed_.1
  finish bytes current_file_.1
  ok (record {
    mask = mask_.0;
    agent_id = agent_id_.0;
    model = model_.0;
    status = status_.0;
    task = task_.0;
    progress_delta = progress_.0;
    tokens_delta = tokens_.0;
    memory_mb_delta = memory_mb_.0;
    cpu_percent = cpu_percent_.0;
    files_processed_delta = files_processed_.0;
    current_file = current_file_.0;
  })
