-- ===== src/Domain/Machine/Review.antt =====
-- packages/domain/src/state-machines/review-cycle-state-machine.ts.
pub mod Guards
pub mod Diagram
use Prim.Native.String.{◌++◌}
use copilot_factory.Prelude.{
  Bool, Option, none, some, String, List, [], ◌∷◌, any, same, if◌then◌else◌,
}
use copilot_factory.Domain.Status.Review.{
  ReviewCycleStatus, not_started, routed, in_progress, awaiting_required_reviews, consolidating,
  approved, rejected, escalated, review_status_enum,
}
use copilot_factory.Domain.Status.Text.{review_status_text}
use copilot_factory.Domain.Guards.{
  TransitionResult, reject, GuardTable, find_guard, targets_from, table_edges,
}
use Guards.{
  ReviewCycleTransitionContext, guard_not_started_to_routed, guard_routed_to_in_progress,
  guard_in_progress_to_awaiting_required_reviews, guard_in_progress_to_consolidating,
  guard_awaiting_to_consolidating, guard_consolidating_to_approved, guard_consolidating_to_rejected,
  guard_consolidating_to_escalated, guard_in_progress_to_escalated, guard_awaiting_to_escalated,
}

-- `TRANSITION_GUARDS`.
unfoldable pub transition_guards : GuardTable ReviewCycleStatus ReviewCycleTransitionContext
unfolding guard_not_started_to_routed guard_routed_to_in_progress
    guard_in_progress_to_awaiting_required_reviews guard_in_progress_to_consolidating
    guard_awaiting_to_consolidating guard_consolidating_to_approved guard_consolidating_to_rejected
    guard_consolidating_to_escalated guard_in_progress_to_escalated guard_awaiting_to_escalated
transition_guards =
    (not_started, routed, guard_not_started_to_routed)
    ∷ (routed, in_progress, guard_routed_to_in_progress)
    ∷ (in_progress, consolidating, guard_in_progress_to_consolidating)
    ∷ (consolidating, approved, guard_consolidating_to_approved)
    ∷ (in_progress, awaiting_required_reviews, guard_in_progress_to_awaiting_required_reviews)
    ∷ (awaiting_required_reviews, consolidating, guard_awaiting_to_consolidating)
    ∷ (consolidating, rejected, guard_consolidating_to_rejected)
    ∷ (consolidating, escalated, guard_consolidating_to_escalated)
    ∷ (in_progress, escalated, guard_in_progress_to_escalated)
    ∷ (awaiting_required_reviews, escalated, guard_awaiting_to_escalated)
    ∷ []

-- `TERMINAL_STATES.has(state)`.
unfoldable pub is_terminal_review_cycle_state : ReviewCycleStatus → Bool
is_terminal_review_cycle_state state = any (same state) (approved ∷ rejected ∷ escalated ∷ [])

unfoldable pub validate_review_cycle_transition :
    ReviewCycleStatus → ReviewCycleStatus → ReviewCycleTransitionContext → TransitionResult
unfolding transition_guards find_guard
validate_review_cycle_transition current target context =
    if same current target
    then reject ("Cannot transition from " ++ review_status_text current ++ " to itself")
    else elim (find_guard current target transition_guards) [
      | some guard ↦ guard context
      | none ↦ reject (
          "Invalid transition: "
          ++ review_status_text current
          ++ " → "
          ++ review_status_text target
          ++ " is not a valid review cycle state transition")
    ]

unfoldable pub get_valid_review_cycle_targets : ReviewCycleStatus → List ReviewCycleStatus
unfolding transition_guards targets_from
get_valid_review_cycle_targets current = targets_from current transition_guards

unfoldable pub get_all_valid_review_cycle_transitions : List (ReviewCycleStatus × ReviewCycleStatus)
unfolding transition_guards table_edges
get_all_valid_review_cycle_transitions = table_edges transition_guards
