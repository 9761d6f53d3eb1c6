-- ===== src/Service/Reclaim/Retries.antt =====
-- The decision of packages/application/src/services/lease-reclaim.service.ts on the task.
use copilot_factory.Prelude.{
  ℕ, ◌+◌, ◌<◌, Bool, true, false, ◌≡◌, ◌≢◌, ◌↔◌, ◌⊎◌, inl, inr, refl, arith, Bool-cases,
}
use copilot_factory.Domain.Policy.Retry.{
  RetryPolicy, RetryEvaluation, RetryEvaluationContext, should_retry, should_retry_iff,
}
use copilot_factory.Domain.Policy.Escalation.{
  EscalationPolicy, EscalationEvaluation, EscalationAction, EscalationTrigger, should_escalate,
  get_trigger_action,
}
use copilot_factory.Domain.Status.Task.{ready, failed, escalated, task_status_enum}
use copilot_factory.Service.Tables.{TaskRow}
use copilot_factory.Service.TaskOutcome.{
  TaskOutcome, outcome_of, evaluate_task_outcome, timeout_context, is_fail_then_escalate,
}

-- What the retry policy asks for.
abbrev pub MayRetry : TaskRow → RetryPolicy → Bool → Type 0
MayRetry task policy has_failure_summary =
    (task.retry_count < policy.max_attempts)
    × ((policy.require_failure_summary_packet ≡ false) ⊎ (has_failure_summary ≡ true))

-- A missed heartbeat always escalates, with the action that is configured for it.
timeout_escalates :
    (task : TaskRow) (retry : RetryPolicy) (policy : EscalationPolicy)
    → ((should_escalate (timeout_context task retry) policy).should_escalate ≡ true)
      × ((should_escalate (timeout_context task retry) policy).action
          ≡ get_trigger_action EscalationTrigger.heartbeat_timeout policy)
unfolding should_escalate
timeout_escalates task retry policy = (refl, refl)

is_fail_then_escalate_iff :
    (action : EscalationAction)
    → (is_fail_then_escalate action ≡ true) ↔ (action ≡ EscalationAction.fail_then_escalate)
is_fail_then_escalate_iff EscalationAction.fail_then_escalate = (λ h. refl, λ h. refl)
is_fail_then_escalate_iff EscalationAction.escalate = (λ h. cc, λ h. cc)
is_fail_then_escalate_iff EscalationAction.retry_or_escalate = (λ h. cc, λ h. cc)
is_fail_then_escalate_iff EscalationAction.disable_profile_and_escalate = (λ h. cc, λ h. cc)
is_fail_then_escalate_iff EscalationAction.fail_and_escalate = (λ h. cc, λ h. cc)

-- The three outcomes where the escalation fires.
abbrev pub Fails : TaskOutcome → EscalationAction → Type 0
Fails o action =
    ((action ≡ EscalationAction.fail_then_escalate) × (o.target_status ≡ failed))
    ⊎ ((action ≢ EscalationAction.fail_then_escalate) × (o.target_status ≡ escalated))

outcome_of_cases :
    (n : ℕ) (retry : RetryEvaluation) (e : EscalationEvaluation)
    → e.should_escalate ≡ true
    → ((retry.eligible ≡ true)
        × ((outcome_of n retry e).target_status ≡ ready)
        × ((outcome_of n retry e).new_retry_count ≡ n + 1))
      ⊎ ((retry.eligible ≡ false)
          × ((outcome_of n retry e).new_retry_count ≡ n)
          × Fails (outcome_of n retry e) e.action)
unfolding outcome_of
outcome_of_cases n retry e h = elim (Bool-cases retry.eligible) [
  | inl a ↦ inl (a, rw a refl, rw a refl)
  | inr a ↦ elim (Bool-cases (is_fail_then_escalate e.action)) [
    | inl b ↦
        inr
          (a, rw (a, h, b) refl, inl ((is_fail_then_escalate_iff e.action).0 b, rw (a, h, b) refl))
    | inr b ↦ inr (
      a,
      rw (a, h, b) refl,
      inr (λ k. ground (arith, (is_fail_then_escalate_iff e.action).1 k), rw (a, h, b) refl),
    )
  ]
]

-- A reclaimed task goes back to READY exactly when the retry policy allows it; otherwise it is FAILED
-- exactly when the action that is configured for a missed heartbeat is "fail_then_escalate", and
-- ESCALATED exactly when it is another. Only a retry raises the count, by one.
pub evaluate_task_outcome_cases :
    (task : TaskRow) (retry : RetryPolicy) (policy : EscalationPolicy) (summary : Bool)
    → (MayRetry task retry summary
        × ((evaluate_task_outcome task retry policy summary).target_status ≡ ready)
        × ((evaluate_task_outcome task retry policy summary).new_retry_count
            ≡ task.retry_count + 1))
      ⊎ ((¬ MayRetry task retry summary)
          × ((evaluate_task_outcome task retry policy summary).new_retry_count ≡ task.retry_count)
          × Fails
              (evaluate_task_outcome task retry policy summary)
              (get_trigger_action EscalationTrigger.heartbeat_timeout policy))
unfolding evaluate_task_outcome should_escalate get_trigger_action
evaluate_task_outcome_cases task retry policy summary =
    let context : RetryEvaluationContext = record {
      retry_count = task.retry_count;
      has_failure_summary = summary;
    } in
    let granted = (should_retry_iff context retry).0 in
    let (fires, action) = timeout_escalates task retry policy in
    elim (outcome_of_cases task.retry_count (should_retry context retry)
      (should_escalate (timeout_context task retry) policy) fires) [
        | inl (e, t, n) ↦ inl (granted.0 e, t, n)
        | inr (e, n, f) ↦ inr (λ m. ground (arith, granted.1 m), n, f)
      ]
