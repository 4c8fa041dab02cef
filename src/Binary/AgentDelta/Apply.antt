-- ===== src/Binary/AgentDelta/Apply.antt =====
-- The difference of two states, applied to the first, gives the second.
use delta_stream.Common.{ℕ, ◌≤◌, ◌≡◌, refl, Bool, true, false, not, List, ◌==◌, IsU64, arith}
use delta_stream.Common.Bytes.{ℤ, minus, same_bytes→eq}
use delta_stream.Error.{Result, ok}
use delta_stream.State.{AgentState, f32_eq}
use delta_stream.Binary.Words.{to_bits, from_bits}
use delta_stream.Binary.Words.Laws.{IsI128}
use delta_stream.Binary.StateCodec.RoundTrip.{IsState}
use delta_stream.Binary.AgentDelta.{
  when, differs, between, add_delta, narrow, apply_u64_delta, apply_u8_delta, replace, shift_by,
  apply,
}

-- The two floats are the same bits or count as different: not a zero and the negative zero.
abbrev pub IsExact : ℕ → ℕ → Type 0
IsExact x y = f32_eq x y ≡ true → x ≡ y

pub minus-IsI128 : (new old : ℕ) → IsU64 new → IsU64 old → IsI128 (minus new old)
unfolding minus
minus-IsI128 new old h k = ground arith

apply_u64_delta-minus :
    (new old : ℕ) → IsU64 new → IsU64 old → apply_u64_delta old (minus new old) ≡ ok new
unfolding apply_u64_delta add_delta narrow minus to_bits from_bits
apply_u64_delta-minus new old h k = ground arith

apply_u8_delta-minus :
    (new old : ℕ) → new ≤ 255 → old ≤ 255 → apply_u8_delta old (minus new old) ≡ ok new
unfolding apply_u8_delta add_delta narrow minus to_bits from_bits
apply_u8_delta-minus new old h k = ground arith

replace-when :
    (differ : Bool) {A : Type 0} (new old : A)
    → (differ ≡ false → old ≡ new)
    → replace (when differ new) old ≡ new
unfolding replace when
replace-when true new old h = refl
replace-when false new old h = h refl

differs-eq : (old new : List ℕ) → differs old new ≡ false → old ≡ new
unfolding differs
differs-eq old new h = same_bytes→eq old new (ground arith)

shift_by-when :
    (f : ℕ → ℤ → Result ℕ) (new old : ℕ)
    → f old (minus new old) ≡ ok new
    → shift_by f (when (not (old == new)) (minus new old)) old ≡ ok new
unfolding shift_by when
shift_by-when f new old h = ground arith

pub apply-between :
    (old new : AgentState)
    → IsState old
    → IsState new
    → IsExact old.cpu_percent new.cpu_percent
    → apply (between old new) old ≡ ok new
unfolding apply between
apply-between old new h k exact =
    rw
      (
        shift_by-when apply_u8_delta new.progress old.progress
            (apply_u8_delta-minus new.progress old.progress k.progress_ok h.progress_ok),
        shift_by-when apply_u64_delta new.tokens old.tokens
            (apply_u64_delta-minus new.tokens old.tokens k.tokens_ok h.tokens_ok),
        shift_by-when apply_u64_delta new.memory_mb old.memory_mb
            (apply_u64_delta-minus new.memory_mb old.memory_mb k.memory_mb_ok h.memory_mb_ok),
        shift_by-when apply_u64_delta new.files_processed old.files_processed (
            apply_u64_delta-minus new.files_processed old.files_processed k.files_processed_ok
              h.files_processed_ok),
        replace-when _ new.agent_id old.agent_id (differs-eq old.agent_id new.agent_id),
        replace-when _ new.model old.model (differs-eq old.model new.model),
        replace-when _ new.status old.status (differs-eq old.status new.status),
        replace-when _ new.task old.task (differs-eq old.task new.task),
        replace-when (not (f32_eq old.cpu_percent new.cpu_percent)) new.cpu_percent old.cpu_percent
            (λ e. exact (ground arith)),
        replace-when _ new.current_file old.current_file
            (differs-eq old.current_file new.current_file),
      )
      refl
