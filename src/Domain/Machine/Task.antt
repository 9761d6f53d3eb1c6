-- ===== src/Domain/Machine/Task.antt =====
-- packages/domain/src/state-machines/task-state-machine.ts: `validateTransition` and its queries.
pub mod Context
pub mod Guards
pub mod Diagram
pub mod Targets
pub mod History
use Prim.Native.String.{◌++◌}
use mathlib.Core.List.{◌++◌ as concat}
use copilot_factory.Prelude.{
  Bool, not, ◌&&◌, Option, none, some, String, List, [], ◌∷◌, map, push, filterb, any, same,
  if◌then◌else◌,
}
use copilot_factory.Domain.Status.Task.{
  TaskStatus, backlog, ready, blocked, assigned, in_development, dev_complete, in_review,
  changes_requested, approved, queued_for_merge, merging, post_merge_validation, done, failed,
  escalated, cancelled, task_statuses, task_status_enum,
}
use copilot_factory.Domain.Guards.{
  TransitionResult, reject, GuardTable, find_guard, targets_from, table_edges,
}
use copilot_factory.Domain.Status.Text.{task_status_text}
use Context.{TransitionContext}
use Guards.{
  guard_backlog_to_ready, guard_backlog_to_blocked, guard_blocked_to_ready, guard_ready_to_assigned,
  guard_assigned_to_in_development, guard_in_development_to_dev_complete,
  guard_in_development_to_failed, guard_in_development_to_ready, guard_assigned_to_ready,
  guard_assigned_to_failed, guard_dev_complete_to_in_review, guard_in_review_to_changes_requested,
  guard_in_review_to_approved, guard_changes_requested_to_assigned,
  guard_approved_to_queued_for_merge, guard_queued_for_merge_to_merging,
  guard_merging_to_post_merge_validation, guard_merging_to_changes_requested,
  guard_merging_to_failed, guard_post_merge_validation_to_done,
  guard_post_merge_validation_to_failed, guard_to_escalated, guard_to_cancelled,
  guard_escalated_to_assigned, guard_escalated_to_cancelled, guard_escalated_to_done,
}

-- `TRANSITION_GUARDS`.
unfoldable pub transition_guards : GuardTable TaskStatus TransitionContext
unfolding guard_backlog_to_ready guard_backlog_to_blocked guard_blocked_to_ready
    guard_ready_to_assigned guard_assigned_to_in_development guard_in_development_to_dev_complete
    guard_in_development_to_failed guard_in_development_to_ready guard_assigned_to_ready
    guard_assigned_to_failed guard_dev_complete_to_in_review guard_in_review_to_changes_requested
    guard_in_review_to_approved guard_changes_requested_to_assigned
    guard_approved_to_queued_for_merge guard_queued_for_merge_to_merging
    guard_merging_to_post_merge_validation guard_merging_to_changes_requested
    guard_merging_to_failed guard_post_merge_validation_to_done
    guard_post_merge_validation_to_failed guard_escalated_to_assigned guard_escalated_to_cancelled
    guard_escalated_to_done
transition_guards =
    (backlog, ready, guard_backlog_to_ready)
    ∷ (backlog, blocked, guard_backlog_to_blocked)
    ∷ (blocked, ready, guard_blocked_to_ready)
    ∷ (ready, assigned, guard_ready_to_assigned)
    ∷ (assigned, in_development, guard_assigned_to_in_development)
    ∷ (assigned, ready, guard_assigned_to_ready)
    ∷ (assigned, failed, guard_assigned_to_failed)
    ∷ (in_development, dev_complete, guard_in_development_to_dev_complete)
    ∷ (in_development, failed, guard_in_development_to_failed)
    ∷ (in_development, ready, guard_in_development_to_ready)
    ∷ (dev_complete, in_review, guard_dev_complete_to_in_review)
    ∷ (in_review, changes_requested, guard_in_review_to_changes_requested)
    ∷ (in_review, approved, guard_in_review_to_approved)
    ∷ (changes_requested, assigned, guard_changes_requested_to_assigned)
    ∷ (approved, queued_for_merge, guard_approved_to_queued_for_merge)
    ∷ (queued_for_merge, merging, guard_queued_for_merge_to_merging)
    ∷ (merging, post_merge_validation, guard_merging_to_post_merge_validation)
    ∷ (merging, changes_requested, guard_merging_to_changes_requested)
    ∷ (merging, failed, guard_merging_to_failed)
    ∷ (post_merge_validation, done, guard_post_merge_validation_to_done)
    ∷ (post_merge_validation, failed, guard_post_merge_validation_to_failed)
    ∷ (escalated, assigned, guard_escalated_to_assigned)
    ∷ (escalated, cancelled, guard_escalated_to_cancelled)
    ∷ (escalated, done, guard_escalated_to_done)
    ∷ []

-- `TERMINAL_STATES.has(state)`.
unfoldable pub is_terminal_state : TaskStatus → Bool
is_terminal_state state = any (same state) (done ∷ failed ∷ cancelled ∷ [])

unfoldable pub wildcard_escalation_sources : List TaskStatus
unfolding is_terminal_state
wildcard_escalation_sources =
    filterb (λ s. not (is_terminal_state s) && not (same s escalated)) task_statuses

unfoldable pub wildcard_cancellation_sources : List TaskStatus
unfolding is_terminal_state
wildcard_cancellation_sources = filterb (λ s. not (is_terminal_state s)) task_statuses

-- `Set.has` and `Array.includes`.
abbrev pub includes : List TaskStatus → TaskStatus → Bool
includes xs s = any (same s) xs

-- What is left when the map has no guard for the key.
unfoldable pub validate_wildcard : TaskStatus → TaskStatus → TransitionContext → TransitionResult
unfolding wildcard_escalation_sources wildcard_cancellation_sources guard_to_escalated
    guard_to_cancelled
validate_wildcard current target context =
    let name = task_status_text current in
    if same target escalated
    then if includes wildcard_escalation_sources current
      then guard_to_escalated context
      else reject
          ("Cannot transition " ++ name ++ " → ESCALATED: " ++ name ++ " is a terminal state")
    else if same target cancelled && not (same current escalated)
    then if includes wildcard_cancellation_sources current
      then guard_to_cancelled context
      else reject
          ("Cannot transition " ++ name ++ " → CANCELLED: " ++ name ++ " is a terminal state")
    else reject (
        "Invalid transition: "
        ++ name
        ++ " → "
        ++ task_status_text target
        ++ " is not a valid task state transition")

unfoldable pub validate_transition : TaskStatus → TaskStatus → TransitionContext → TransitionResult
unfolding transition_guards find_guard validate_wildcard
validate_transition current target context =
    if same current target
    then reject ("Cannot transition from " ++ task_status_text current ++ " to itself")
    else elim (find_guard current target transition_guards) [
      | some guard ↦ guard context
      | none ↦ validate_wildcard current target context
    ]

unfoldable pub get_valid_targets : TaskStatus → List TaskStatus
unfolding transition_guards targets_from wildcard_escalation_sources wildcard_cancellation_sources
get_valid_targets current =
    let targets = targets_from current transition_guards in
    let escalating =
      if includes wildcard_escalation_sources current then push targets escalated else targets in
    if includes wildcard_cancellation_sources current && not (includes escalating cancelled)
    then push escalating cancelled
    else escalating

unfoldable pub get_all_valid_transitions : List (TaskStatus × TaskStatus)
unfolding transition_guards table_edges wildcard_escalation_sources wildcard_cancellation_sources
get_all_valid_transitions = concat (table_edges transition_guards) (
    concat (map (λ s. (s, escalated)) wildcard_escalation_sources) (
      map (λ s. (s, cancelled))
        (filterb (λ s. not (same s escalated)) wildcard_cancellation_sources)))
