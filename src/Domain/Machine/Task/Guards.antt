-- ===== src/Domain/Machine/Task/Guards.antt =====
-- packages/domain/src/state-machines/task-state-machine.ts: one guard for each transition.
use copilot_factory.Prelude.{is_true, is_false, not, ◌||◌}
use copilot_factory.Domain.Guards.{TransitionResult, valid_transition, require}
use copilot_factory.Domain.Machine.Task.Context.{
  TransitionContext, is_approval, is_refusal, is_reworkable, is_non_reworkable,
}

unfoldable pub guard_backlog_to_ready : TransitionContext → TransitionResult
guard_backlog_to_ready ctx =
    require (is_true ctx.all_dependencies_resolved)
      "Cannot transition BACKLOG → READY: not all hard-block dependencies are resolved"
      (require (not (is_true ctx.has_policy_blockers))
        "Cannot transition BACKLOG → READY: policy blockers remain" valid_transition)

unfoldable pub guard_backlog_to_blocked : TransitionContext → TransitionResult
guard_backlog_to_blocked ctx =
    require (is_true ctx.has_blockers || is_true ctx.has_policy_blockers)
      "Cannot transition BACKLOG → BLOCKED: no hard-block dependency or policy blocker detected"
      valid_transition

unfoldable pub guard_blocked_to_ready : TransitionContext → TransitionResult
guard_blocked_to_ready ctx =
    require (is_true ctx.all_dependencies_resolved)
      "Cannot transition BLOCKED → READY: not all hard-block dependencies are resolved"
      (require (not (is_true ctx.has_policy_blockers))
        "Cannot transition BLOCKED → READY: policy blockers remain" valid_transition)

unfoldable pub guard_ready_to_assigned : TransitionContext → TransitionResult
guard_ready_to_assigned ctx =
    require (is_true ctx.lease_acquired) "Cannot transition READY → ASSIGNED: lease not acquired"
      valid_transition

unfoldable pub guard_assigned_to_in_development : TransitionContext → TransitionResult
guard_assigned_to_in_development ctx =
    require (is_true ctx.has_heartbeat)
      "Cannot transition ASSIGNED → IN_DEVELOPMENT: no worker heartbeat received" valid_transition

unfoldable pub guard_in_development_to_dev_complete : TransitionContext → TransitionResult
guard_in_development_to_dev_complete ctx =
    require (is_true ctx.has_dev_result_packet)
      "Cannot transition IN_DEVELOPMENT → DEV_COMPLETE: no schema-valid DevResultPacket received"
      (require (is_true ctx.required_validations_passed)
        "Cannot transition IN_DEVELOPMENT → DEV_COMPLETE: required validations have not passed"
        valid_transition)

unfoldable pub guard_in_development_to_failed : TransitionContext → TransitionResult
guard_in_development_to_failed ctx =
    require (is_true ctx.has_unrecoverable_failure || is_true ctx.lease_timed_out_no_retry)
      "Cannot transition IN_DEVELOPMENT → FAILED: no unrecoverable failure and lease has not timed out without retry"
      valid_transition

unfoldable pub guard_in_development_to_ready : TransitionContext → TransitionResult
guard_in_development_to_ready ctx =
    require (is_true ctx.lease_reclaimed_retry_eligible)
      "Cannot transition IN_DEVELOPMENT → READY: lease has not been reclaimed with retry eligibility"
      valid_transition

unfoldable pub guard_assigned_to_ready : TransitionContext → TransitionResult
guard_assigned_to_ready ctx =
    require (is_true ctx.lease_reclaimed_retry_eligible)
      "Cannot transition ASSIGNED → READY: lease has not been reclaimed with retry eligibility"
      valid_transition

unfoldable pub guard_assigned_to_failed : TransitionContext → TransitionResult
guard_assigned_to_failed ctx =
    require (is_true ctx.lease_timed_out_no_retry)
      "Cannot transition ASSIGNED → FAILED: lease has not timed out without retry" valid_transition

unfoldable pub guard_dev_complete_to_in_review : TransitionContext → TransitionResult
guard_dev_complete_to_in_review ctx =
    require (is_true ctx.has_review_routing_decision)
      "Cannot transition DEV_COMPLETE → IN_REVIEW: no review routing decision emitted"
      valid_transition

unfoldable pub guard_in_review_to_changes_requested : TransitionContext → TransitionResult
guard_in_review_to_changes_requested ctx =
    require (is_refusal ctx.lead_review_decision)
      "Cannot transition IN_REVIEW → CHANGES_REQUESTED: lead reviewer decision must be 'changes_requested' or 'escalated'"
      valid_transition

unfoldable pub guard_in_review_to_approved : TransitionContext → TransitionResult
guard_in_review_to_approved ctx =
    require (is_approval ctx.lead_review_decision)
      "Cannot transition IN_REVIEW → APPROVED: lead reviewer decision must be 'approved' or 'approved_with_follow_up'"
      valid_transition

unfoldable pub guard_changes_requested_to_assigned : TransitionContext → TransitionResult
guard_changes_requested_to_assigned ctx =
    require (is_true ctx.lease_acquired)
      "Cannot transition CHANGES_REQUESTED → ASSIGNED: new lease not acquired for rework"
      valid_transition

unfoldable pub guard_approved_to_queued_for_merge : TransitionContext → TransitionResult
guard_approved_to_queued_for_merge ctx = valid_transition

unfoldable pub guard_queued_for_merge_to_merging : TransitionContext → TransitionResult
guard_queued_for_merge_to_merging ctx = valid_transition

unfoldable pub guard_merging_to_post_merge_validation : TransitionContext → TransitionResult
guard_merging_to_post_merge_validation ctx =
    require (is_true ctx.merge_successful)
      "Cannot transition MERGING → POST_MERGE_VALIDATION: merge did not complete successfully"
      valid_transition

unfoldable pub guard_merging_to_changes_requested : TransitionContext → TransitionResult
guard_merging_to_changes_requested ctx =
    require (is_reworkable ctx.merge_conflict_classification)
      "Cannot transition MERGING → CHANGES_REQUESTED: merge conflict not classified as reworkable"
      valid_transition

unfoldable pub guard_merging_to_failed : TransitionContext → TransitionResult
guard_merging_to_failed ctx =
    require (is_non_reworkable ctx.merge_conflict_classification)
      "Cannot transition MERGING → FAILED: merge conflict not classified as non-reworkable"
      valid_transition

unfoldable pub guard_post_merge_validation_to_done : TransitionContext → TransitionResult
guard_post_merge_validation_to_done ctx =
    require (is_true ctx.post_merge_validation_passed)
      "Cannot transition POST_MERGE_VALIDATION → DONE: required post-merge checks have not passed"
      valid_transition

unfoldable pub guard_post_merge_validation_to_failed : TransitionContext → TransitionResult
guard_post_merge_validation_to_failed ctx =
    require (is_false ctx.post_merge_validation_passed)
      "Cannot transition POST_MERGE_VALIDATION → FAILED: post-merge validation has not explicitly failed"
      valid_transition

unfoldable pub guard_to_escalated : TransitionContext → TransitionResult
guard_to_escalated ctx =
    require (is_true ctx.is_operator || is_true ctx.has_escalation_trigger)
      "Cannot transition to ESCALATED: requires operator action or escalation trigger"
      valid_transition

unfoldable pub guard_to_cancelled : TransitionContext → TransitionResult
guard_to_cancelled ctx =
    require (is_true ctx.is_operator) "Cannot transition to CANCELLED: requires operator action"
      valid_transition

unfoldable pub guard_escalated_to_assigned : TransitionContext → TransitionResult
guard_escalated_to_assigned ctx =
    require (is_true ctx.is_operator)
      "Cannot transition ESCALATED → ASSIGNED: requires operator action"
      (require (is_true ctx.lease_acquired)
        "Cannot transition ESCALATED → ASSIGNED: new lease not acquired" valid_transition)

unfoldable pub guard_escalated_to_cancelled : TransitionContext → TransitionResult
guard_escalated_to_cancelled ctx =
    require (is_true ctx.is_operator)
      "Cannot transition ESCALATED → CANCELLED: requires operator action" valid_transition

unfoldable pub guard_escalated_to_done : TransitionContext → TransitionResult
guard_escalated_to_done ctx =
    require (is_true ctx.is_operator) "Cannot transition ESCALATED → DONE: requires operator action"
      valid_transition
