-- ===== src/Domain/Machine/Queue.antt =====
-- packages/domain/src/state-machines/merge-queue-item-state-machine.ts.
pub mod Guards
pub mod Diagram
use Prim.Native.String.{◌++◌}
use copilot_factory.Prelude.{
  Bool, Option, none, some, String, List, [], ◌∷◌, any, same, if◌then◌else◌,
}
use copilot_factory.Domain.Status.Queue.{
  MergeQueueItemStatus, enqueued, preparing, rebasing, validating, merging, merged, requeued,
  failed, queue_status_enum,
}
use copilot_factory.Domain.Status.Text.{queue_status_text}
use copilot_factory.Domain.Guards.{
  TransitionResult, reject, GuardTable, find_guard, targets_from, table_edges,
}
use Guards.{
  MergeQueueItemTransitionContext, guard_enqueued_to_preparing, guard_preparing_to_rebasing,
  guard_rebasing_to_validating, guard_rebasing_to_failed, guard_rebasing_to_requeued,
  guard_validating_to_merging, guard_validating_to_failed, guard_validating_to_requeued,
  guard_merging_to_merged, guard_merging_to_failed, guard_merging_to_requeued,
  guard_requeued_to_enqueued,
}

-- `TRANSITION_GUARDS`.
unfoldable pub transition_guards : GuardTable MergeQueueItemStatus MergeQueueItemTransitionContext
unfolding guard_enqueued_to_preparing guard_preparing_to_rebasing guard_rebasing_to_validating
    guard_rebasing_to_failed guard_rebasing_to_requeued guard_validating_to_merging
    guard_validating_to_failed guard_validating_to_requeued guard_merging_to_merged
    guard_merging_to_failed guard_merging_to_requeued guard_requeued_to_enqueued
transition_guards =
    (enqueued, preparing, guard_enqueued_to_preparing)
    ∷ (preparing, rebasing, guard_preparing_to_rebasing)
    ∷ (rebasing, validating, guard_rebasing_to_validating)
    ∷ (validating, merging, guard_validating_to_merging)
    ∷ (merging, merged, guard_merging_to_merged)
    ∷ (rebasing, failed, guard_rebasing_to_failed)
    ∷ (rebasing, requeued, guard_rebasing_to_requeued)
    ∷ (validating, failed, guard_validating_to_failed)
    ∷ (validating, requeued, guard_validating_to_requeued)
    ∷ (merging, failed, guard_merging_to_failed)
    ∷ (merging, requeued, guard_merging_to_requeued)
    ∷ (requeued, enqueued, guard_requeued_to_enqueued)
    ∷ []

-- `TERMINAL_STATES.has(state)`.
unfoldable pub is_terminal_merge_queue_item_state : MergeQueueItemStatus → Bool
is_terminal_merge_queue_item_state state = any (same state) (merged ∷ failed ∷ [])

unfoldable pub validate_merge_queue_item_transition :
    MergeQueueItemStatus → MergeQueueItemStatus → MergeQueueItemTransitionContext → TransitionResult
unfolding transition_guards find_guard
validate_merge_queue_item_transition current target context =
    if same current target
    then reject ("Cannot transition from " ++ queue_status_text current ++ " to itself")
    else elim (find_guard current target transition_guards) [
      | some guard ↦ guard context
      | none ↦ reject (
          "Invalid transition: "
          ++ queue_status_text current
          ++ " → "
          ++ queue_status_text target
          ++ " is not a valid merge queue item state transition")
    ]

unfoldable pub get_valid_merge_queue_item_targets : MergeQueueItemStatus → List MergeQueueItemStatus
unfolding transition_guards targets_from
get_valid_merge_queue_item_targets current = targets_from current transition_guards

unfoldable pub get_all_valid_merge_queue_item_transitions :
    List (MergeQueueItemStatus × MergeQueueItemStatus)
unfolding transition_guards table_edges
get_all_valid_merge_queue_item_transitions = table_edges transition_guards
