-- ===== src/Service/Reclaim.antt =====
-- packages/application/src/services/lease-reclaim.service.ts, with the adapter
-- `createReclaimUnitOfWork` of apps/control-plane/src/automation/application-adapters.ts.
pub mod Steps
pub mod Outcome
pub mod Retries
use copilot_factory.Prelude.{
  ℕ, ◌+◌, Bool, true, false, Option, none, some, String, List, [], ◌∷◌, any, same, if◌then◌else◌,
}
use copilot_factory.Domain.Status.Task.{
  TaskStatus, ready, assigned, in_development, failed, escalated, task_status_enum,
}
use copilot_factory.Domain.Status.Lease.{
  WorkerLeaseStatus, starting, running, heartbeating, timed_out, crashed, lease_status_enum,
}
use copilot_factory.Domain.Guards.{TransitionResult}
use copilot_factory.Domain.Machine.Task.Context.{TransitionContext, empty_context}
use copilot_factory.Domain.Machine.Lease.Guards.{
  WorkerLeaseTransitionContext, empty_context as empty_lease_context,
}
use copilot_factory.Domain.Machine.Task.{validate_transition}
use copilot_factory.Domain.Machine.Lease.{validate_worker_lease_transition}
use copilot_factory.Domain.Policy.Retry.{RetryPolicy, RetryEvaluation, RetryReason, should_retry}
use copilot_factory.Domain.Policy.Escalation.{
  EscalationPolicy, EscalationEvaluation, EscalationAction, EscalationTrigger, EscalationContext,
  should_escalate,
}
use copilot_factory.Service.Errors.{
  Result, ok, throw, ◌>>=◌, ◌>>◌, or_throw, unless_throw, EntityType, ServiceError, Status,
}
use copilot_factory.Service.TaskOutcome.{
  TaskOutcome, evaluate_task_outcome, build_task_transition_context,
}
use copilot_factory.Service.Tables.{
  TaskRow, LeaseRow, ActorInfo, AuditEvent, AuditState, DomainEvent, Tables, ReclaimReason,
  missed_heartbeats, ttl_expired, worker_crashed, ReclaimOutcome, find_task, find_lease,
  update_task, update_lease, record_audit,
}

-- `RECLAIMABLE_STATES.has(status)`.
unfoldable pub is_reclaimable : WorkerLeaseStatus → Bool
is_reclaimable status = any (same status) (starting ∷ running ∷ heartbeating ∷ [])

-- `RECLAIM_ELIGIBLE_TASK_STATES.has(status)`.
unfoldable pub is_reclaim_eligible : TaskStatus → Bool
is_reclaim_eligible status = any (same status) (assigned ∷ in_development ∷ [])

unfoldable pub determine_lease_target_state : ReclaimReason → WorkerLeaseStatus
determine_lease_target_state missed_heartbeats = timed_out
determine_lease_target_state ttl_expired = timed_out
determine_lease_target_state worker_crashed = crashed

unfoldable pub build_lease_transition_context : WorkerLeaseStatus → WorkerLeaseTransitionContext
build_lease_transition_context target =
    if same target timed_out
    then record empty_lease_context { heartbeat_timed_out = some true }
    else record empty_lease_context { worker_crashed = some true }

-- `has_failure_summary` is the parameter with its default `false`.
pub record ReclaimLeaseParams : Type 0 where
  pub lease_id : ℕ
  pub reason : ReclaimReason
  pub retry_policy : RetryPolicy
  pub escalation_policy : EscalationPolicy
  pub has_failure_summary : Bool
  pub actor : ActorInfo
  pub metadata : Option String

pub record ReclaimLeaseResult : Type 0 where
  pub lease : LeaseRow
  pub task : TaskRow
  pub outcome : ReclaimOutcome
  pub retry_evaluation : RetryEvaluation
  pub escalation_evaluation : Option EscalationEvaluation
  pub audit_event : AuditEvent
  -- What is emitted after the commit.
  pub events : List DomainEvent

abbrev pub reclaim_audit : ReclaimLeaseParams → LeaseRow → TaskRow → AuditState → AuditEvent
reclaim_audit p lease task new_state = record {
  entity_type = EntityType.task_lease;
  entity_id = p.lease_id;
  event_type = "lease.reclaimed";
  actor = p.actor;
  old_state = AuditState.before_reclaim lease.status task.status task.version task.retry_count;
  new_state = new_state;
  metadata = p.metadata;
}

abbrev pub reclaim_events :
    ReclaimLeaseParams → LeaseRow → TaskRow → LeaseRow → TaskRow → List DomainEvent
reclaim_events p lease task lease' task' =
    DomainEvent.lease_transitioned p.lease_id p.actor lease.status lease'.status
    ∷ DomainEvent.task_transitioned task'.task_id p.actor task.status task'.status task'.version
    ∷ []

-- The branch of a task that another process has moved on: the lease is kept as reclaimed, the task
-- stays.
unfoldable pub reclaim_noop :
    ReclaimLeaseParams → LeaseRow → LeaseRow → TaskRow → Tables → Tables × ReclaimLeaseResult
reclaim_noop p lease lease' task db =
    let audit =
      reclaim_audit p lease task
        (AuditState.reclaim_noop lease'.status task.status task.version p.reason) in
    (
      record_audit audit db,
      record {
        lease = lease';
        task = task;
        outcome = ReclaimOutcome.failed;
        retry_evaluation = record {
          eligible = false;
          backoff_seconds = 0;
          next_attempt = task.retry_count + 1;
          reason = some (RetryReason.task_not_reclaim_eligible task.status);
        };
        escalation_evaluation = none;
        audit_event = audit;
        events = reclaim_events p lease task lease' task;
      },
    )

abbrev pub set_outcome : TaskOutcome → TaskRow → TaskRow
set_outcome o row = record row {
  status = o.target_status;
  retry_count = o.new_retry_count;
  current_lease_id = none;
}

-- Steps 8 to 10.
unfoldable pub apply_outcome :
    ReclaimLeaseParams
    → LeaseRow
    → LeaseRow
    → TaskRow
    → TaskOutcome
    → Tables
    → Result (Tables × ReclaimLeaseResult)
apply_outcome p lease lease' task o db = do
  let validation =
      validate_transition task.status o.target_status
        (build_task_transition_context o.target_status)
  unless_throw validation.valid (
      ServiceError.invalid_transition EntityType.task task.task_id (Status.of_task task.status)
        (Status.of_task o.target_status) validation.reason)
  written ← update_task task.task_id task.version (set_outcome o) db
  let audit = reclaim_audit p lease task (
      AuditState.after_reclaim lease'.status written.1.status written.1.version
        written.1.retry_count o.outcome p.reason o.retry_evaluation.eligible
        (elim o.escalation_evaluation [ none ↦ none | some e ↦ some e.action ]))
  ok (
    record_audit audit written.0,
    record {
      lease = lease';
      task = written.1;
      outcome = o.outcome;
      retry_evaluation = o.retry_evaluation;
      escalation_evaluation = o.escalation_evaluation;
      audit_event = audit;
      events = reclaim_events p lease task lease' written.1;
    },
  )

-- Steps 6 to 10, on the task that was found.
unfoldable pub settle_task :
    ReclaimLeaseParams
    → LeaseRow
    → LeaseRow
    → TaskRow
    → Tables
    → Result (Tables × ReclaimLeaseResult)
unfolding is_reclaim_eligible
settle_task p lease lease' task db =
    if is_reclaim_eligible task.status
    then apply_outcome p lease lease' task
        (evaluate_task_outcome task p.retry_policy p.escalation_policy p.has_failure_summary) db
    else ok (reclaim_noop p lease lease' task db)

abbrev pub end_lease : ReclaimReason → LeaseRow → LeaseRow
end_lease reason row = record row {
  status = determine_lease_target_state reason;
  reclaim_reason = some reason;
}

-- Steps 2 and 3.
unfoldable pub check_reclaim : ReclaimLeaseParams → LeaseRow → Result (Unit {0})
unfolding is_reclaimable
check_reclaim p lease = do
  unless_throw (is_reclaimable lease.status)
      (ServiceError.lease_not_reclaimable p.lease_id lease.status)
  let target = determine_lease_target_state p.reason
  let validation =
      validate_worker_lease_transition lease.status target (build_lease_transition_context target)
  unless_throw validation.valid (
      ServiceError.invalid_transition EntityType.task_lease p.lease_id
        (Status.of_lease lease.status) (Status.of_lease target) validation.reason)

unfoldable pub reclaim_lease : ReclaimLeaseParams → Tables → Result (Tables × ReclaimLeaseResult)
reclaim_lease p db = do
  lease ←
      or_throw (find_lease p.lease_id db)
        (ServiceError.entity_not_found EntityType.task_lease p.lease_id)
  check_reclaim p lease
  ended ← update_lease p.lease_id lease.status (end_lease p.reason) db
  task ←
      or_throw (find_task lease.task_id ended.0)
        (ServiceError.entity_not_found EntityType.task lease.task_id)
  settle_task p lease ended.1 task ended.0
