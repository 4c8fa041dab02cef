-- ===== src/State.antt =====
-- src/state.rs: the state of an agent. A `String` is the list of its bytes, an `f32` its 32 bits.
use delta_stream.Common.{
  ℕ, ◌+◌, ◌%◌, ◌^◌, Bool, ◌&&◌, ◌||◌, not, List, ◌==◌, ltb, min, saturating_add,
}

pub record AgentState : Type 0 where
  pub agent_id : List ℕ
  pub model : List ℕ
  pub status : List ℕ
  pub task : List ℕ
  pub progress : ℕ
  pub tokens : ℕ
  pub memory_mb : ℕ
  pub cpu_percent : ℕ
  pub files_processed : ℕ
  pub current_file : List ℕ

-- `==` on `f32`: a NaN equals nothing, and the two zeros equal one another.
unfoldable pub is_nan : ℕ → Bool
is_nan x = ltb 0x7f800000 (x % 2 ^ 31)

unfoldable pub f32_eq : ℕ → ℕ → Bool
unfolding is_nan
f32_eq x y =
    not (is_nan x) && not (is_nan y) && ((x == y) || ((x % 2 ^ 31 == 0) && (y % 2 ^ 31 == 0)))

-- `next_cpu` is `(x + 1.9) % 100.0` on `f32`, whose arithmetic is a parameter.
unfoldable pub advance : (ℕ → ℕ) → AgentState → AgentState
advance next_cpu s = record s {
  progress = min (min (s.progress + 1) 255) 100;
  tokens = saturating_add s.tokens 128;
  cpu_percent = next_cpu s.cpu_percent;
  files_processed = saturating_add s.files_processed 1;
}
