-- ===== src/Binary/StateCodec.antt =====
-- `encode_agent_state` and `decode_agent_state` of src/binary.rs.
pub mod RoundTrip
use delta_stream.Common.{ℕ, List, [], ◌++◌, length, ltb, u64_max}
use delta_stream.Error.{invalid_packet, text, Result, ok, fail_if, ◌>>=◌, ◌>>◌}
use delta_stream.Packet.Little.{to_le_bytes}
use delta_stream.State.{AgentState}
use delta_stream.Binary.Words.{put_var_u128}
use delta_stream.Binary.Reader.{read_f32, var_u128, read_string, finish}

unfoldable pub put_string : List ℕ → List ℕ → List ℕ
put_string out value = put_var_u128 out (length value) ++ value

unfoldable pub encode_agent_state : AgentState → Result (List ℕ)
encode_agent_state s =
    let out = put_string [] s.agent_id in
    let out = put_string out s.model in
    let out = put_string out s.status in
    let out = put_string out s.task in
    let out = put_var_u128 out s.progress in
    let out = put_var_u128 out s.tokens in
    let out = put_var_u128 out s.memory_mb in
    let out = out ++ to_le_bytes 4 s.cpu_percent in
    let out = put_var_u128 out s.files_processed in ok (put_string out s.current_file)

unfoldable pub decode_agent_state : List ℕ → Result AgentState
decode_agent_state bytes = do
  agent_id_ ← read_string bytes 0
  model_ ← read_string bytes agent_id_.1
  status_ ← read_string bytes model_.1
  task_ ← read_string bytes status_.1
  progress_ ← var_u128 bytes task_.1
  fail_if (ltb 255 progress_.0) (invalid_packet (text "progress overflow"))
  tokens_ ← var_u128 bytes progress_.1
  fail_if (ltb u64_max tokens_.0) (invalid_packet (text "tokens overflow"))
  memory_mb_ ← var_u128 bytes tokens_.1
  fail_if (ltb u64_max memory_mb_.0) (invalid_packet (text "memory overflow"))
  cpu_percent_ ← read_f32 bytes memory_mb_.1
  files_processed_ ← var_u128 bytes cpu_percent_.1
  fail_if (ltb u64_max files_processed_.0) (invalid_packet (text "files overflow"))
  current_file_ ← read_string bytes files_processed_.1
  finish bytes current_file_.1
  ok (record {
    agent_id = agent_id_.0;
    model = model_.0;
    status = status_.0;
    task = task_.0;
    progress = progress_.0;
    tokens = tokens_.0;
    memory_mb = memory_mb_.0;
    cpu_percent = cpu_percent_.0;
    files_processed = files_processed_.0;
    current_file = current_file_.0;
  })
