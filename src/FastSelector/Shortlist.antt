-- ===== src/FastSelector/Shortlist.antt =====
-- The short list only holds kinds that the two states admit.
use delta_stream.Common.{
  ℕ, ◌≤◌, ◌≡◌, ◌⊎◌, inl, inr, List, [], ◌∷◌, length, drop, length-append, length-drop, ◌==◌, ==_iff,
  Bool-cases, All, max, arith,
}
use delta_stream.SmartDelta.Kind.{SmartDeltaKind}
use delta_stream.SmartDelta.Dispatch.Candidates.{AnyLength}
use delta_stream.FastSelector.{Floats, StrategyAdvisor, analyze, resized, shortlist, observe_winner}

-- The kind takes states of these lengths.
abbrev pub IsAdmitted : List ℕ → List ℕ → SmartDeltaKind → Type 0
IsAdmitted previous current k = AnyLength k ⊎ (length previous ≡ length current)

module _ (previous current : List ℕ) (same : length previous ≡ length current) where
  All-IsAdmitted : (ks : List SmartDeltaKind) → All (IsAdmitted previous current) ks
  All-IsAdmitted [] = tt
  All-IsAdmitted (k ∷ ks) = (inr same, All-IsAdmitted ks)

-- Every kind on the advisor's short list takes states of the two lengths that were analysed:
-- between states of different lengths only splices and chunks are listed, whatever won before and
-- whatever the comparisons of floats answer.
pub shortlist-IsAdmitted :
    (floats : Floats) (self : StrategyAdvisor) (previous current : List ℕ)
    → All (IsAdmitted previous current) (shortlist floats self (analyze previous current))
unfolding shortlist resized analyze
shortlist-IsAdmitted floats self previous current =
    elim (Bool-cases (length previous == length current)) [
      | inl same ↦
          All-IsAdmitted previous current ((==_iff _ _).0 same)
            (shortlist floats self (analyze previous current))
      | inr differ ↦ rw differ (inl tt, (inl tt, tt))
    ]

-- Noting a winner keeps the list of recent winners within the configured window, or one if that is
-- zero.
pub observe_winner-window :
    (self : StrategyAdvisor) (k : SmartDeltaKind)
    → length self.recent_winners ≤ max self.policy.winner_window 1
    → length (observe_winner self k).recent_winners ≤ max self.policy.winner_window 1
unfolding observe_winner
observe_winner-window self k h =
    elim (Bool-cases (length self.recent_winners == max self.policy.winner_window 1)) [
      | inl full ↦ rw full (
          omega (
            arith,
            length-append (drop 1 self.recent_winners) (k ∷ []),
            length-drop 1 self.recent_winners,
          ))
      | inr room ↦ rw room (ground (arith, length-append self.recent_winners (k ∷ [])))
    ]
