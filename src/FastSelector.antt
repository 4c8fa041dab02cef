-- ===== src/FastSelector.antt =====
-- src/fast_selector.rs: the profile of a change, and the short list of delta kinds to try.
pub mod Shortlist
use delta_stream.Common.{
  ℕ, suc, zero, ◌+◌, ◌-◌, ◌*◌, ◌%◌, Bool, true, false, not, ◌&&◌, ◌||◌, min, max, List, [], ◌∷◌,
  ◌++◌, Option, none, some, length, drop, ltb, leb, ◌==◌, if◌then◌else◌, saturating_add,
}
use delta_stream.SmartDelta.Kind.{SmartDeltaKind, sparse, ranges, xor, splice, chunks}
use delta_stream.SmartDelta.Splice.{common_prefix, suffix_loop}

-- The comparisons that the code makes in `f64`; its arithmetic is a parameter.
pub record Floats : Type 0 where
  -- `changed as f64 / denom as f64 * 100.0 <= ratio as f64`
  pub percent_at_most : ℕ → ℕ → ℕ → Bool
  -- `changed as f64 / denom as f64 * 100.0 >= 45.0`
  pub percent_at_least_45 : ℕ → ℕ → Bool
  -- `wins as f64 / attempts as f64 >= 0.15`
  pub rate_at_least_15 : ℕ → ℕ → Bool

pub record ChangeProfile : Type 0 where
  pub previous_len : ℕ
  pub current_len : ℕ
  pub changed_bytes : ℕ
  pub changed_runs : ℕ
  pub common_prefix : ℕ
  pub common_suffix : ℕ

-- The loop over the common length: the changed bytes and the changed runs.
unfoldable pub count_changes : List ℕ → List ℕ → Bool → ℕ → ℕ → ℕ × ℕ
count_changes [] current in_run bytes runs = (bytes, runs)
count_changes (a ∷ as') [] in_run bytes runs = (bytes, runs)
count_changes (a ∷ as') (b ∷ bs) in_run bytes runs =
    let changed = not (a == b) in
    count_changes as' bs changed (if changed then bytes + 1 else bytes)
      (if changed && not in_run then runs + 1 else runs)

-- `abs_diff`
unfoldable pub abs_diff : ℕ → ℕ → ℕ
abs_diff a b = if ltb a b then b - a else a - b

-- `analyze`; both scans are the loops of `encode_splice`, with the same bounds.
unfoldable pub analyze : List ℕ → List ℕ → ChangeProfile
analyze previous current =
    let common = min (length previous) (length current) in
    let counts =
      count_changes previous current false (abs_diff (length previous) (length current)) 0 in
    let prefix = common_prefix previous current in
    record {
      previous_len = length previous;
      current_len = length current;
      changed_bytes = counts.0;
      changed_runs = counts.1;
      common_prefix = prefix;
      common_suffix = suffix_loop (common - prefix) previous current 0;
    }

unfoldable pub resized : ChangeProfile → Bool
resized p = not (p.previous_len == p.current_len)

pub record SelectorPolicy : Type 0 where
  pub sparse_ratio : ℕ
  pub range_run_limit : ℕ
  pub explore_every : ℕ
  pub winner_window : ℕ

abbrev pub default_selector_policy : SelectorPolicy
default_selector_policy = record {
  sparse_ratio = 8;
  range_run_limit = 64;
  explore_every = 64;
  winner_window = 64;
}

pub record StrategyAdvisor : Type 0 where
  pub policy : SelectorPolicy
  pub recent_winners : List SmartDeltaKind
  pub updates : ℕ
  pub compression_attempts : ℕ
  pub compression_wins : ℕ

abbrev pub new_advisor : SelectorPolicy → StrategyAdvisor
new_advisor policy_ = record {
  policy = policy_;
  recent_winners = [];
  updates = 0;
  compression_attempts = 0;
  compression_wins = 0;
}

unfoldable pub index : SmartDeltaKind → ℕ
index sparse = 0
index ranges = 1
index xor = 2
index splice = 3
index chunks = 4

unfoldable pub from_index : ℕ → SmartDeltaKind
from_index i =
    if i == 0
    then sparse
    else if i == 1
    then ranges
    else if i == 2
    then xor
    else if i == 3
    then splice
    else chunks

-- `counts[i]` after the loop over the winners.
unfoldable pub count_of : ℕ → List SmartDeltaKind → ℕ
count_of i [] = 0
count_of i (k ∷ ks) = let rest = count_of i ks in if index k == i then rest + 1 else rest

-- `max_by_key` on the indices from `i` on: the last one among equals.
unfoldable pub last_max : ℕ → ℕ → ℕ → List SmartDeltaKind → ℕ
last_max zero i best winners = best
last_max (suc left) i best winners =
    last_max left (i + 1) (if leb (count_of best winners) (count_of i winners) then i else best)
      winners

unfoldable pub dominant_winner : StrategyAdvisor → Option SmartDeltaKind
dominant_winner self =
    let best = last_max 4 1 0 self.recent_winners in
    if ltb (length self.recent_winners) 8
    then none
    else if ltb (count_of best self.recent_winners * 4) (length self.recent_winners * 3)
    then none
    else some (from_index best)

unfoldable pub should_explore : StrategyAdvisor → Bool
should_explore self =
    ltb 0 self.policy.explore_every
    && ltb 0 self.updates
    && self.updates % self.policy.explore_every == 0

-- The choice by the profile alone.
unfoldable pub shortlist_by_profile : Floats → StrategyAdvisor → ChangeProfile → List SmartDeltaKind
shortlist_by_profile floats self profile =
    let denom = max (max profile.previous_len profile.current_len) 1 in
    if floats.percent_at_most profile.changed_bytes denom self.policy.sparse_ratio
    then sparse ∷ ranges ∷ []
    else if leb profile.changed_runs self.policy.range_run_limit
    then ranges ∷ sparse ∷ []
    else if floats.percent_at_least_45 profile.changed_bytes denom
    then xor ∷ ranges ∷ []
    else ranges ∷ sparse ∷ []

-- A winner is used alone, unless it is time to explore.
unfoldable pub shortlist_by_winner :
    Floats → StrategyAdvisor → ChangeProfile → Option SmartDeltaKind → List SmartDeltaKind
shortlist_by_winner floats self profile none = shortlist_by_profile floats self profile
shortlist_by_winner floats self profile (some winner) =
    if not (should_explore self) then winner ∷ [] else shortlist_by_profile floats self profile

unfoldable pub shortlist : Floats → StrategyAdvisor → ChangeProfile → List SmartDeltaKind
shortlist floats self profile =
    if resized profile
    then splice ∷ chunks ∷ []
    else shortlist_by_winner floats self profile (dominant_winner self)

unfoldable pub observe_winner : StrategyAdvisor → SmartDeltaKind → StrategyAdvisor
observe_winner self kind =
    let full = length self.recent_winners == max self.policy.winner_window 1 in
    record self {
      updates = saturating_add self.updates 1;
      recent_winners =
          (if full then drop 1 self.recent_winners else self.recent_winners) ++ (kind ∷ []);
    }

unfoldable pub observe_no_delta : StrategyAdvisor → StrategyAdvisor
observe_no_delta self = record self { updates = saturating_add self.updates 1 }

unfoldable pub observe_compression : StrategyAdvisor → Bool → StrategyAdvisor
observe_compression self won = record self {
  compression_attempts = saturating_add self.compression_attempts 1;
  compression_wins = if won then saturating_add self.compression_wins 1 else self.compression_wins;
}

-- The win rate is 0 without attempts, but then the first test of the disjunction holds.
unfoldable pub should_compress : Floats → StrategyAdvisor → ℕ → ℕ → Bool
should_compress floats self payload_len min_payload =
    if ltb payload_len min_payload
    then false
    else ltb self.compression_attempts 16
      || floats.rate_at_least_15 self.compression_wins self.compression_attempts
      || should_explore self
