-- ===== src/Binary/StateCodec/RoundTrip.antt =====
-- A state that is encoded is decoded again.
use delta_stream.Common.{
  ℕ, ◌≤◌, ◌<◌, ◌^◌, ◌+◌, ◌≡◌, refl, sym, ap, subst, ◌∙◌, true, List, [], ◌++◌, append_assoc,
  append-nil, length, At, At-append, At-start, IsU64, u64_max, isize_max, ltb-eq-false, arith,
}
use delta_stream.Error.{ok, ok_injective}
use delta_stream.Packet.Little.{to_le_bytes}
use delta_stream.State.{AgentState}
use delta_stream.Binary.Words.Laws.{wide_bytes, put_var_u128_lem}
use delta_stream.Binary.Utf8.{is_utf8}
use delta_stream.Binary.Reader.Laws.{
  var_u128-At, string_bytes, read_string-At, read_f32-At, finish-At,
}
use delta_stream.Binary.StateCodec.{put_string, encode_agent_state, decode_agent_state}

-- What the types of the source say of a state: strings are UTF-8, numbers fit their words.
abbrev pub IsString : List ℕ → Type 0
IsString s = (is_utf8 s ≡ true) × (length s ≤ isize_max)

pub record IsState (s : AgentState) : Type 0 where
  pub agent_id_ok : IsString s.agent_id
  pub model_ok : IsString s.model
  pub status_ok : IsString s.status
  pub task_ok : IsString s.task
  pub progress_ok : s.progress ≤ 255
  pub tokens_ok : IsU64 s.tokens
  pub memory_mb_ok : IsU64 s.memory_mb
  pub cpu_percent_ok : s.cpu_percent < 2 ^ 32
  pub files_processed_ok : IsU64 s.files_processed
  pub current_file_ok : IsString s.current_file

pub put_string_lem :
    (out s : List ℕ) → length s ≤ isize_max → put_string out s ≡ out ++ string_bytes s
unfolding put_string
put_string_lem out s h =
    ap (λ o. o ++ s) (put_var_u128_lem out (length s) (omega arith))
    ∙ append_assoc out (wide_bytes (length s)) s

-- The fields' bytes, each before what follows it.
numbers : AgentState → List ℕ
numbers s =
    wide_bytes s.progress
    ++ (wide_bytes s.tokens
        ++ (wide_bytes s.memory_mb
            ++ (to_le_bytes 4 s.cpu_percent
                ++ (wide_bytes s.files_processed ++ (string_bytes s.current_file ++ [])))))

unfoldable pub state_bytes : AgentState → List ℕ
unfolding numbers
state_bytes s =
    string_bytes s.agent_id
    ++ (string_bytes s.model ++ (string_bytes s.status ++ (string_bytes s.task ++ numbers s)))

pub encode_agent_state_lem :
    (s : AgentState) → IsState s → encode_agent_state s ≡ ok (state_bytes s)
unfolding encode_agent_state state_bytes numbers
encode_agent_state_lem s h =
    rw
      (
        put_string_lem [] s.agent_id h.agent_id_ok.1,
        put_string_lem _ s.model h.model_ok.1,
        put_string_lem _ s.status h.status_ok.1,
        put_string_lem _ s.task h.task_ok.1,
        put_var_u128_lem _ s.progress (omega (arith, h.progress_ok)),
        put_var_u128_lem _ s.tokens (omega (arith, h.tokens_ok)),
        put_var_u128_lem _ s.memory_mb (omega (arith, h.memory_mb_ok)),
        put_var_u128_lem _ s.files_processed (omega (arith, h.files_processed_ok)),
        put_string_lem _ s.current_file h.current_file_ok.1,
      )
      (ap ok (simp (append_assoc, append-nil)))

-- Behind a field stands what follows it.
pub next_field :
    (bytes : List ℕ) (at : ℕ) (front rest : List ℕ)
    → At bytes at (front ++ rest)
    → At bytes (at + length front) rest
next_field bytes at front rest a = At-append bytes at (at + length front) front rest a refl

-- The fields are read one after the other.
decoded :
    (s : AgentState) (bytes : List ℕ)
    → IsState s
    → length bytes ≤ isize_max
    → At bytes 0 (state_bytes s)
    → decode_agent_state bytes ≡ ok s
unfolding decode_agent_state state_bytes numbers
decoded s bytes h small a0 =
    let a1 = next_field bytes _ (string_bytes s.agent_id) _ a0 in
    let a2 = next_field bytes _ (string_bytes s.model) _ a1 in
    let a3 = next_field bytes _ (string_bytes s.status) _ a2 in
    let a4 = next_field bytes _ (string_bytes s.task) _ a3 in
    let a5 = next_field bytes _ (wide_bytes s.progress) _ a4 in
    let a6 = next_field bytes _ (wide_bytes s.tokens) _ a5 in
    let a7 = next_field bytes _ (wide_bytes s.memory_mb) _ a6 in
    let a8 = next_field bytes _ (to_le_bytes 4 s.cpu_percent) _ a7 in
    let a9 = next_field bytes _ (wide_bytes s.files_processed) _ a8 in
    let a10 = next_field bytes _ (string_bytes s.current_file) [] a9 in
    rw
      (
        read_string-At bytes _ s.agent_id _ small h.agent_id_ok.0 a0,
        read_string-At bytes _ s.model _ small h.model_ok.0 a1,
        read_string-At bytes _ s.status _ small h.status_ok.0 a2,
        read_string-At bytes _ s.task _ small h.task_ok.0 a3,
        var_u128-At bytes _ s.progress _ (omega (arith, h.progress_ok)) a4,
        ltb-eq-false 255 s.progress h.progress_ok,
        var_u128-At bytes _ s.tokens _ (omega (arith, h.tokens_ok)) a5,
        ltb-eq-false u64_max s.tokens h.tokens_ok,
        var_u128-At bytes _ s.memory_mb _ (omega (arith, h.memory_mb_ok)) a6,
        ltb-eq-false u64_max s.memory_mb h.memory_mb_ok,
        read_f32-At bytes _ s.cpu_percent _ small h.cpu_percent_ok a7,
        var_u128-At bytes _ s.files_processed _ (omega (arith, h.files_processed_ok)) a8,
        ltb-eq-false u64_max s.files_processed h.files_processed_ok,
        read_string-At bytes _ s.current_file [] small h.current_file_ok.0 a9,
        finish-At bytes _ a10,
      )
      refl

-- Decoding the encoding of a well-formed state gives that state back, to the last byte: the strings
-- are UTF-8, the numbers fit their types, and the encoding is no longer than a slice can be.
pub decode-encode_agent_state :
    (s : AgentState) (bytes : List ℕ)
    → IsState s
    → length bytes ≤ isize_max
    → encode_agent_state s ≡ ok bytes
    → decode_agent_state bytes ≡ ok s
decode-encode_agent_state s bytes h small e =
    let whole : At bytes 0 (state_bytes s) =
      subst (At bytes 0) (ok_injective _ _ (sym e ∙ encode_agent_state_lem s h)) (At-start bytes) in
    decoded s bytes h small whole
