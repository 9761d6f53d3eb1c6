-- ===== src/Service/TaskOutcome.antt =====
-- The decision on the task of a reclaimed lease in
-- packages/application/src/services/lease-reclaim.service.ts.
use copilot_factory.Prelude.{ℕ, ◌+◌, Bool, true, false, Option, none, some, if◌then◌else◌}
use copilot_factory.Domain.Status.Task.{TaskStatus, ready, failed, escalated, task_status_enum}
use copilot_factory.Domain.Status.Lease.{lease_status_enum}
use copilot_factory.Domain.Machine.Task.Context.{TransitionContext, empty_context}
use copilot_factory.Domain.Policy.Retry.{RetryPolicy, RetryEvaluation, should_retry}
use copilot_factory.Domain.Policy.Escalation.{
  EscalationPolicy, EscalationEvaluation, EscalationAction, EscalationTrigger, EscalationContext,
  should_escalate,
}
use copilot_factory.Service.Tables.{TaskRow, ReclaimOutcome}

pub record TaskOutcome : Type 0 where
  pub outcome : ReclaimOutcome
  pub target_status : TaskStatus
  pub retry_evaluation : RetryEvaluation
  pub escalation_evaluation : Option EscalationEvaluation
  pub new_retry_count : ℕ

abbrev pub is_fail_then_escalate : EscalationAction → Bool
is_fail_then_escalate EscalationAction.fail_then_escalate = true
is_fail_then_escalate _ = false

-- What `evaluateTaskOutcome` makes of the two evaluations.
unfoldable pub outcome_of : ℕ → RetryEvaluation → EscalationEvaluation → TaskOutcome
outcome_of retry_count retry escalation =
    if retry.eligible
    then record {
      outcome = ReclaimOutcome.retried;
      target_status = ready;
      retry_evaluation = retry;
      escalation_evaluation = none;
      new_retry_count = retry_count + 1;
    }
    else if escalation.should_escalate
    then if is_fail_then_escalate escalation.action
      then record {
        outcome = ReclaimOutcome.failed;
        target_status = failed;
        retry_evaluation = retry;
        escalation_evaluation = some escalation;
        new_retry_count = retry_count;
      }
      else record {
        outcome = ReclaimOutcome.escalated;
        target_status = escalated;
        retry_evaluation = retry;
        escalation_evaluation = some escalation;
        new_retry_count = retry_count;
      }
    else record {
      outcome = ReclaimOutcome.failed;
      target_status = failed;
      retry_evaluation = retry;
      escalation_evaluation = some escalation;
      new_retry_count = retry_count;
    }

abbrev pub timeout_context : TaskRow → RetryPolicy → EscalationContext
timeout_context task policy = record {
  trigger = EscalationTrigger.heartbeat_timeout;
  retry_count = some task.retry_count;
  max_attempts = some policy.max_attempts;
  review_round = none;
  max_review_rounds = none;
  schema_failure_count = none;
  schema_failure_threshold = none;
}

unfoldable pub evaluate_task_outcome : TaskRow → RetryPolicy → EscalationPolicy → Bool → TaskOutcome
unfolding outcome_of
evaluate_task_outcome task retry_policy escalation_policy has_failure_summary =
    outcome_of task.retry_count
      (should_retry
        (record { retry_count = task.retry_count; has_failure_summary = has_failure_summary })
        retry_policy)
      (should_escalate (timeout_context task retry_policy) escalation_policy)

unfoldable pub build_task_transition_context : TaskStatus → TransitionContext
build_task_transition_context TaskStatus.ready = record empty_context {
  lease_reclaimed_retry_eligible = some true;
}
build_task_transition_context TaskStatus.failed = record empty_context {
  lease_timed_out_no_retry = some true;
}
build_task_transition_context TaskStatus.escalated = record empty_context {
  has_escalation_trigger = some true;
}
build_task_transition_context _ = empty_context
