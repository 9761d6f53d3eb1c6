-- ===== src/Service/Reclaim/Steps.antt =====
-- The transitions that packages/application/src/services/lease-reclaim.service.ts asks for are valid.
use copilot_factory.Prelude.{ℕ, Bool, true, ◌≡◌, inl, inr, refl, arith, Bool-cases}
use copilot_factory.Domain.Status.Task.{
  TaskStatus, ready, assigned, in_development, failed, escalated, task_status_enum,
}
use copilot_factory.Domain.Status.Lease.{WorkerLeaseStatus, idle, lease_status_enum}
use copilot_factory.Domain.Machine.Task.{validate_transition}
use copilot_factory.Domain.Machine.Lease.{validate_worker_lease_transition}
use copilot_factory.Domain.Policy.Retry.{RetryPolicy, RetryEvaluation, should_retry}
use copilot_factory.Domain.Policy.Escalation.{
  EscalationPolicy, EscalationEvaluation, should_escalate,
}
use copilot_factory.Service.Tables.{TaskRow, ReclaimReason, missed_heartbeats}
use copilot_factory.Service.Reclaim.{
  is_reclaimable, is_reclaim_eligible, determine_lease_target_state, build_lease_transition_context,
}
use copilot_factory.Service.TaskOutcome.{
  outcome_of, evaluate_task_outcome, build_task_transition_context, is_fail_then_escalate,
  timeout_context,
}

pub lease_step :
    (s : WorkerLeaseStatus) (reason : ReclaimReason)
    → is_reclaimable s ≡ true
    → (validate_worker_lease_transition s
        (determine_lease_target_state reason)
        (build_lease_transition_context (determine_lease_target_state reason))).valid
      ≡ true
unfolding is_reclaimable determine_lease_target_state build_lease_transition_context
    validate_worker_lease_transition
lease_step idle missed_heartbeats h = ground arith
lease_step _ _ h = ground arith

-- The targets that an outcome may have.
pub data IsTarget : TaskStatus → Type 0 where
  to_ready : IsTarget ready
  to_failed : IsTarget failed
  to_escalated : IsTarget escalated

pub outcome_of-IsTarget :
    (n : ℕ) (retry : RetryEvaluation) (escalation : EscalationEvaluation)
    → IsTarget (outcome_of n retry escalation).target_status
unfolding outcome_of
outcome_of-IsTarget n retry escalation = elim (Bool-cases retry.eligible) [
  | inl a ↦ rw a to_ready
  | inr a ↦ elim (Bool-cases escalation.should_escalate) [
    | inl b ↦ elim (Bool-cases (is_fail_then_escalate escalation.action)) [
      | inl c ↦ rw (a, b, c) to_failed
      | inr c ↦ rw (a, b, c) to_escalated
    ]
    | inr b ↦ rw (a, b) to_failed
  ]
]

pub evaluate_task_outcome-IsTarget :
    (task : TaskRow) (retry : RetryPolicy) (escalation : EscalationPolicy) (summary : Bool)
    → IsTarget (evaluate_task_outcome task retry escalation summary).target_status
unfolding evaluate_task_outcome
evaluate_task_outcome-IsTarget task retry escalation summary =
    outcome_of-IsTarget task.retry_count
      (should_retry (record { retry_count = task.retry_count; has_failure_summary = summary })
        retry)
      (should_escalate (timeout_context task retry) escalation)

pub task_step :
    (s t : TaskStatus)
    → is_reclaim_eligible s ≡ true
    → IsTarget t
    → (validate_transition s t (build_task_transition_context t)).valid ≡ true
unfolding is_reclaim_eligible validate_transition build_task_transition_context
task_step assigned t h to_ready = refl
task_step assigned t h to_failed = refl
task_step assigned t h to_escalated = refl
task_step in_development t h to_ready = refl
task_step in_development t h to_failed = refl
task_step in_development t h to_escalated = refl
task_step _ t h k = absurd (ground arith)
