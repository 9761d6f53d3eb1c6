-- ===== src/Domain/Machine/Queue/Guards.antt =====
-- packages/domain/src/state-machines/merge-queue-item-state-machine.ts: the evidence that a caller gives, and one guard
-- for each transition.
use copilot_factory.Prelude.{Bool, Option, none, is_true, ◌||◌, ◌&&◌}
use copilot_factory.Domain.Guards.{TransitionResult, valid_transition, require}

-- Each field may be `undefined`.
pub record MergeQueueItemTransitionContext : Type 0 where
  pub preparation_started : Option Bool
  pub workspace_ready : Option Bool
  pub rebase_successful : Option Bool
  pub rebase_failed : Option Bool
  pub conflict_reworkable : Option Bool
  pub validation_passed : Option Bool
  pub validation_failed : Option Bool
  pub failure_transient : Option Bool
  pub merge_successful : Option Bool
  pub merge_failed : Option Bool
  pub preempted : Option Bool

-- `{}`, the default context.
abbrev pub empty_context : MergeQueueItemTransitionContext
empty_context = record {
  preparation_started = none;
  workspace_ready = none;
  rebase_successful = none;
  rebase_failed = none;
  conflict_reworkable = none;
  validation_passed = none;
  validation_failed = none;
  failure_transient = none;
  merge_successful = none;
  merge_failed = none;
  preempted = none;
}

unfoldable pub guard_enqueued_to_preparing : MergeQueueItemTransitionContext → TransitionResult
guard_enqueued_to_preparing ctx =
    require (is_true ctx.preparation_started)
      "Cannot transition ENQUEUED → PREPARING: preparation not started" valid_transition

unfoldable pub guard_preparing_to_rebasing : MergeQueueItemTransitionContext → TransitionResult
guard_preparing_to_rebasing ctx =
    require (is_true ctx.workspace_ready)
      "Cannot transition PREPARING → REBASING: workspace not ready" valid_transition

unfoldable pub guard_rebasing_to_validating : MergeQueueItemTransitionContext → TransitionResult
guard_rebasing_to_validating ctx =
    require (is_true ctx.rebase_successful)
      "Cannot transition REBASING → VALIDATING: rebase not successful" valid_transition

unfoldable pub guard_rebasing_to_failed : MergeQueueItemTransitionContext → TransitionResult
guard_rebasing_to_failed ctx =
    require (is_true ctx.rebase_failed) "Cannot transition REBASING → FAILED: rebase has not failed"
      valid_transition

unfoldable pub guard_rebasing_to_requeued : MergeQueueItemTransitionContext → TransitionResult
guard_rebasing_to_requeued ctx =
    require (is_true ctx.rebase_failed)
      "Cannot transition REBASING → REQUEUED: rebase has not failed"
      (require (is_true ctx.conflict_reworkable)
        "Cannot transition REBASING → REQUEUED: conflict is not reworkable" valid_transition)

unfoldable pub guard_validating_to_merging : MergeQueueItemTransitionContext → TransitionResult
guard_validating_to_merging ctx =
    require (is_true ctx.validation_passed)
      "Cannot transition VALIDATING → MERGING: validation not passed" valid_transition

unfoldable pub guard_validating_to_failed : MergeQueueItemTransitionContext → TransitionResult
guard_validating_to_failed ctx =
    require (is_true ctx.validation_failed)
      "Cannot transition VALIDATING → FAILED: validation has not failed" valid_transition

unfoldable pub guard_validating_to_requeued : MergeQueueItemTransitionContext → TransitionResult
guard_validating_to_requeued ctx =
    require
      ((is_true ctx.validation_failed && is_true ctx.failure_transient) || is_true ctx.preempted)
      "Cannot transition VALIDATING → REQUEUED: requires transient validation failure or preemption"
      valid_transition

unfoldable pub guard_merging_to_merged : MergeQueueItemTransitionContext → TransitionResult
guard_merging_to_merged ctx =
    require (is_true ctx.merge_successful)
      "Cannot transition MERGING → MERGED: merge not successful" valid_transition

unfoldable pub guard_merging_to_failed : MergeQueueItemTransitionContext → TransitionResult
guard_merging_to_failed ctx =
    require (is_true ctx.merge_failed) "Cannot transition MERGING → FAILED: merge has not failed"
      valid_transition

unfoldable pub guard_merging_to_requeued : MergeQueueItemTransitionContext → TransitionResult
guard_merging_to_requeued ctx =
    require (is_true ctx.merge_failed) "Cannot transition MERGING → REQUEUED: merge has not failed"
      (require (is_true ctx.failure_transient)
        "Cannot transition MERGING → REQUEUED: failure is not transient" valid_transition)

unfoldable pub guard_requeued_to_enqueued : MergeQueueItemTransitionContext → TransitionResult
guard_requeued_to_enqueued ctx = valid_transition
