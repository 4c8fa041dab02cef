-- ===== src/Binary/DeltaCodec/RoundTrip.antt =====
-- A delta that is encoded is decoded again, and brings the old state to the new one.
use delta_stream.Common.{
  ℕ, ◌≤◌, ◌<◌, ◌^◌, ◌+◌, ◌≡◌, refl, sym, ap, ◌∙◌, Bool, not, List, [], ◌∷◌, ◌++◌, append_assoc,
  append-nil, length, At, At-start, Option, none, some, ◌==◌, isize_max, arith,
}
use delta_stream.Common.Bytes.{ℤ, minus}
use delta_stream.Error.{ok, ◌>>=◌, >>=-ok}
use delta_stream.Packet.Little.{to_le_bytes}
use delta_stream.State.{AgentState, f32_eq}
use delta_stream.Binary.Words.{zigzag, put_var_i128}
use delta_stream.Binary.Words.Laws.{IsI128, wide_bytes, put_var_u128_lem, zigzag-lt}
use delta_stream.Binary.Reader.{Read, read_f32, var_i128, read_string}
use delta_stream.Binary.Reader.Laws.{
  string_bytes, var_i128-At, read_string-At, read_f32-At, read_u16-At, finish-At,
}
use delta_stream.Binary.StateCodec.{put_string}
use delta_stream.Binary.StateCodec.RoundTrip.{IsString, IsState, put_string_lem, next_field}
use delta_stream.Binary.AgentDelta.{AgentDelta, differs, between, apply}
use delta_stream.Binary.AgentDelta.Masks.{IsField, mark_all, mark_all-lt, mark_all-IsField}
use delta_stream.Binary.AgentDelta.Apply.{IsExact, minus-IsI128, apply-between}
use delta_stream.Binary.DeltaCodec.{
  put_f32, put_field, encode_agent_delta, read_field, decode_agent_delta,
}

abbrev pub IsFloat : ℕ → Type 0
IsFloat x = x < 2 ^ 32

-- The mask names exactly the fields that have a value, and the values fit their types.
pub record IsDelta (d : AgentDelta) : Type 0 where
  pub mask_ok : d.mask < 2 ^ 16
  pub agent_id_ok : IsField IsString d.mask 1 d.agent_id
  pub model_ok : IsField IsString d.mask 2 d.model
  pub status_ok : IsField IsString d.mask 4 d.status
  pub task_ok : IsField IsString d.mask 8 d.task
  pub progress_ok : IsField IsI128 d.mask 16 d.progress_delta
  pub tokens_ok : IsField IsI128 d.mask 32 d.tokens_delta
  pub memory_mb_ok : IsField IsI128 d.mask 64 d.memory_mb_delta
  pub cpu_percent_ok : IsField IsFloat d.mask 128 d.cpu_percent
  pub files_processed_ok : IsField IsI128 d.mask 256 d.files_processed_delta
  pub current_file_ok : IsField IsString d.mask 512 d.current_file

-- The bytes of a field that may be absent.
abbrev pub field_bytes {ℓ} : {A : Type ℓ} → (A → List ℕ) → Option A → List ℕ
field_bytes enc none = []
field_bytes enc (some v) = enc v

abbrev int_bytes : ℤ → List ℕ
int_bytes v = wide_bytes (zigzag v)

-- A block of the encoder appends the field's bytes.
put_field_lem :
    {A : Type 0} {P : A → Type 0} (put : List ℕ → A → List ℕ) (enc : A → List ℕ)
    → ((out : List ℕ) (v : A) → P v → put out v ≡ out ++ enc v)
    → (mask bit : ℕ) (value : Option A) (out : List ℕ) → IsField P mask bit value
    → put_field put mask bit value out ≡ ok (out ++ field_bytes enc value)
unfolding put_field
put_field_lem put enc appends mask bit none out h = rw h (ap ok (sym (append-nil out)))
put_field_lem put enc appends mask bit (some v) out h = rw h.0 (ap ok (appends out v h.1))

-- A block of the decoder reads them again.
read_field-At :
    {A : Type 0} {P : A → Type 0} (read : List ℕ → ℕ → Read A) (enc : A → List ℕ) (bytes : List ℕ)
    → ((at : ℕ) (v : A) (rest : List ℕ)
        → P v
        → At bytes at (enc v ++ rest)
        → read bytes at ≡ ok (v, at + length (enc v)))
    → (mask bit at : ℕ) (value : Option A) (rest : List ℕ) → IsField P mask bit value
    → At bytes at (field_bytes enc value ++ rest)
    → read_field read mask bit bytes at ≡ ok (value, at + length (field_bytes enc value))
unfolding read_field
read_field-At read enc bytes reads mask bit at none rest h a =
    rw h (ap (λ (t : ℕ). ok (none, t)) (omega arith))
read_field-At read enc bytes reads mask bit at (some v) rest h a =
    rw (h.0, reads at v rest h.1 a) refl

-- The blocks of the three kinds of field.
put_string_field :
    (mask bit : ℕ) (value : Option (List ℕ)) (out : List ℕ)
    → IsField IsString mask bit value
    → put_field put_string mask bit value out ≡ ok (out ++ field_bytes string_bytes value)
put_string_field =
    put_field_lem {P = IsString} put_string string_bytes λ out v h. put_string_lem out v h.1

put_int_field :
    (mask bit : ℕ) (value : Option ℤ) (out : List ℕ)
    → IsField IsI128 mask bit value
    → put_field put_var_i128 mask bit value out ≡ ok (out ++ field_bytes int_bytes value)
unfolding put_var_i128
put_int_field =
    put_field_lem {P = IsI128} put_var_i128 int_bytes
      λ out v h. put_var_u128_lem out (zigzag v) (zigzag-lt v h)

put_float_field :
    (mask bit : ℕ) (value : Option ℕ) (out : List ℕ)
    → IsField IsFloat mask bit value
    → put_field put_f32 mask bit value out ≡ ok (out ++ field_bytes (to_le_bytes 4) value)
unfolding put_f32
put_float_field = put_field_lem {P = IsFloat} put_f32 (to_le_bytes 4) λ out v h. refl

numbers : AgentDelta → List ℕ
numbers d =
    field_bytes int_bytes d.progress_delta
    ++ (field_bytes int_bytes d.tokens_delta
        ++ (field_bytes int_bytes d.memory_mb_delta
            ++ (field_bytes (to_le_bytes 4) d.cpu_percent
                ++ (field_bytes int_bytes d.files_processed_delta
                    ++ (field_bytes string_bytes d.current_file ++ [])))))

unfoldable pub delta_bytes : AgentDelta → List ℕ
unfolding numbers
delta_bytes d =
    to_le_bytes 2 d.mask
    ++ (field_bytes string_bytes d.agent_id
        ++ (field_bytes string_bytes d.model
            ++ (field_bytes string_bytes d.status
                ++ (field_bytes string_bytes d.task ++ numbers d))))

pub encode_agent_delta_lem :
    (d : AgentDelta) → IsDelta d → encode_agent_delta d ≡ ok (delta_bytes d)
unfolding encode_agent_delta delta_bytes numbers
encode_agent_delta_lem d h = >>=-ok _ (put_string_field d.mask 1 d.agent_id _ h.agent_id_ok) (
    >>=-ok _ (put_string_field d.mask 2 d.model _ h.model_ok) (
      >>=-ok _ (put_string_field d.mask 4 d.status _ h.status_ok) (
        >>=-ok _ (put_string_field d.mask 8 d.task _ h.task_ok) (
          >>=-ok _ (put_int_field d.mask 16 d.progress_delta _ h.progress_ok) (
            >>=-ok _ (put_int_field d.mask 32 d.tokens_delta _ h.tokens_ok) (
              >>=-ok _ (put_int_field d.mask 64 d.memory_mb_delta _ h.memory_mb_ok) (
                >>=-ok _ (put_float_field d.mask 128 d.cpu_percent _ h.cpu_percent_ok) (
                  >>=-ok _ (put_int_field d.mask 256 d.files_processed_delta _ h.files_processed_ok)
                    (put_string_field d.mask 512 d.current_file _ h.current_file_ok
                      ∙ ap ok (simp (append_assoc, append-nil)))))))))))

module _ (bytes : List ℕ) (small : length bytes ≤ isize_max) where
  read_string_field :
      (mask bit at : ℕ) (value : Option (List ℕ)) (rest : List ℕ)
      → IsField IsString mask bit value
      → At bytes at (field_bytes string_bytes value ++ rest)
      → read_field read_string mask bit bytes at
        ≡ ok (value, at + length (field_bytes string_bytes value))
  read_string_field =
      read_field-At {P = IsString} read_string string_bytes bytes
        λ at v rest h a. read_string-At bytes at v rest small h.0 a

  read_int_field :
      (mask bit at : ℕ) (value : Option ℤ) (rest : List ℕ)
      → IsField IsI128 mask bit value
      → At bytes at (field_bytes int_bytes value ++ rest)
      → read_field var_i128 mask bit bytes at
        ≡ ok (value, at + length (field_bytes int_bytes value))
  read_int_field =
      read_field-At {P = IsI128} var_i128 int_bytes bytes
        λ at v rest h a. var_i128-At bytes at v rest h a

  read_float_field :
      (mask bit at : ℕ) (value : Option ℕ) (rest : List ℕ)
      → IsField IsFloat mask bit value
      → At bytes at (field_bytes (to_le_bytes 4) value ++ rest)
      → read_field read_f32 mask bit bytes at
        ≡ ok (value, at + length (field_bytes (to_le_bytes 4) value))
  read_float_field =
      read_field-At {P = IsFloat} read_f32 (to_le_bytes 4) bytes
        λ at v rest h a. read_f32-At bytes at v rest small h a

  -- The fields are read one after the other.
  decoded :
      (d : AgentDelta) → IsDelta d → At bytes 0 (delta_bytes d) → decode_agent_delta bytes ≡ ok d
  unfolding decode_agent_delta delta_bytes numbers
  decoded d h a0 =
      let a1 = next_field bytes _ (to_le_bytes 2 d.mask) _ a0 in
      let a2 = next_field bytes _ (field_bytes string_bytes d.agent_id) _ a1 in
      let a3 = next_field bytes _ (field_bytes string_bytes d.model) _ a2 in
      let a4 = next_field bytes _ (field_bytes string_bytes d.status) _ a3 in
      let a5 = next_field bytes _ (field_bytes string_bytes d.task) _ a4 in
      let a6 = next_field bytes _ (field_bytes int_bytes d.progress_delta) _ a5 in
      let a7 = next_field bytes _ (field_bytes int_bytes d.tokens_delta) _ a6 in
      let a8 = next_field bytes _ (field_bytes int_bytes d.memory_mb_delta) _ a7 in
      let a9 = next_field bytes _ (field_bytes (to_le_bytes 4) d.cpu_percent) _ a8 in
      let a10 = next_field bytes _ (field_bytes int_bytes d.files_processed_delta) _ a9 in
      let a11 = next_field bytes _ (field_bytes string_bytes d.current_file) [] a10 in
      rw
        (
          read_u16-At bytes _ d.mask _ small h.mask_ok a0,
          read_string_field d.mask 1 _ d.agent_id _ h.agent_id_ok a1,
          read_string_field d.mask 2 _ d.model _ h.model_ok a2,
          read_string_field d.mask 4 _ d.status _ h.status_ok a3,
          read_string_field d.mask 8 _ d.task _ h.task_ok a4,
          read_int_field d.mask 16 _ d.progress_delta _ h.progress_ok a5,
          read_int_field d.mask 32 _ d.tokens_delta _ h.tokens_ok a6,
          read_int_field d.mask 64 _ d.memory_mb_delta _ h.memory_mb_ok a7,
          read_float_field d.mask 128 _ d.cpu_percent _ h.cpu_percent_ok a8,
          read_int_field d.mask 256 _ d.files_processed_delta _ h.files_processed_ok a9,
          read_string_field d.mask 512 _ d.current_file [] h.current_file_ok a10,
          finish-At bytes _ a11,
        )
        refl

-- The mask of `between`, block by block.
differences : AgentState → AgentState → List Bool
differences old new =
    differs old.agent_id new.agent_id
    ∷ differs old.model new.model
    ∷ differs old.status new.status
    ∷ differs old.task new.task
    ∷ not (old.progress == new.progress)
    ∷ not (old.tokens == new.tokens)
    ∷ not (old.memory_mb == new.memory_mb)
    ∷ not (f32_eq old.cpu_percent new.cpu_percent)
    ∷ not (old.files_processed == new.files_processed)
    ∷ differs old.current_file new.current_file
    ∷ []

pub between-IsDelta : (old new : AgentState) → IsState old → IsState new → IsDelta (between old new)
unfolding between differences mark_all
between-IsDelta old new h k =
    let cs = differences old new in
    record {
      mask_ok = omega (arith, mark_all-lt cs refl);
      agent_id_ok =
          mark_all-IsField IsString cs 0 _ new.agent_id refl (omega arith) refl
            (λ e. k.agent_id_ok);
      model_ok =
          mark_all-IsField IsString cs 1 _ new.model refl (omega arith) refl (λ e. k.model_ok);
      status_ok =
          mark_all-IsField IsString cs 2 _ new.status refl (omega arith) refl (λ e. k.status_ok);
      task_ok = mark_all-IsField IsString cs 3 _ new.task refl (omega arith) refl (λ e. k.task_ok);
      progress_ok =
          mark_all-IsField IsI128 cs 4 _ (minus new.progress old.progress) refl (omega arith) refl
            (λ e.
              minus-IsI128 new.progress old.progress (omega (arith, k.progress_ok))
                (omega (arith, h.progress_ok)));
      tokens_ok =
          mark_all-IsField IsI128 cs 5 _ (minus new.tokens old.tokens) refl (omega arith) refl
            (λ e. minus-IsI128 new.tokens old.tokens k.tokens_ok h.tokens_ok);
      memory_mb_ok =
          mark_all-IsField IsI128 cs 6 _ (minus new.memory_mb old.memory_mb) refl (omega arith) refl
            (λ e. minus-IsI128 new.memory_mb old.memory_mb k.memory_mb_ok h.memory_mb_ok);
      cpu_percent_ok =
          mark_all-IsField IsFloat cs 7 _ new.cpu_percent refl (omega arith) refl
            (λ e. k.cpu_percent_ok);
      files_processed_ok =
          mark_all-IsField IsI128 cs 8 _ (minus new.files_processed old.files_processed) refl
            (omega arith) refl
            (λ e.
              minus-IsI128 new.files_processed old.files_processed k.files_processed_ok
                h.files_processed_ok);
      current_file_ok =
          mark_all-IsField IsString cs 9 _ new.current_file refl (omega arith) refl
            (λ e. k.current_file_ok);
    }

-- The difference of two well-formed states, whose `cpu_percent` are not a zero and the negative
-- zero, is encoded without an error. Where its bytes fit a slice, decoding them and applying the
-- delta to the old state gives exactly the new state.
pub apply-decode_agent_delta :
    (old new : AgentState)
    → IsState old
    → IsState new
    → IsExact old.cpu_percent new.cpu_percent
    → length (delta_bytes (between old new)) ≤ isize_max
    → (encode_agent_delta (between old new) ≡ ok (delta_bytes (between old new)))
      × ((decode_agent_delta (delta_bytes (between old new)) >>= λ d. apply d old) ≡ ok new)
apply-decode_agent_delta old new h k exact small =
    let d = between-IsDelta old new h k in
    (
      encode_agent_delta_lem (between old new) d,
      >>=-ok _ (decoded (delta_bytes (between old new)) small (between old new) d (At-start _))
          (apply-between old new h k exact),
    )
