-- ===== src/Service/Lease.antt =====
-- packages/application/src/services/lease.service.ts, with the adapter `createLeaseUnitOfWork` of
-- apps/control-plane/src/automation/application-adapters.ts.
pub mod Acquire
use text.Mathlib.Text.{◌==◌ as str_eq}
use copilot_factory.Prelude.{
  ℕ, ◌+◌, Bool, true, false, not, Option, none, some, String, List, [], ◌∷◌, any, same,
}
use copilot_factory.Domain.Status.Task.{
  TaskStatus, ready, changes_requested, escalated, assigned, task_status_enum,
}
use copilot_factory.Domain.Status.Lease.{WorkerLeaseStatus, idle, leased}
use copilot_factory.Domain.Machine.Task.Context.{TransitionContext, empty_context}
use copilot_factory.Domain.Guards.{TransitionResult}
use copilot_factory.Domain.Machine.Task.{validate_transition}
use copilot_factory.Service.Errors.{
  Result, ok, throw, ◌>>=◌, ◌>>◌, or_throw, unless_throw, EntityType, ServiceError, Status,
}
use copilot_factory.Service.Tables.{
  TaskRow, LeaseRow, ActorInfo, AuditEvent, AuditState, DomainEvent, Tables, find_task,
  find_active_by_task_id, update_task, insert_lease, record_audit,
}

-- `LEASE_ELIGIBLE_STATUSES.has(status)`.
unfoldable pub is_lease_eligible : TaskStatus → Bool
is_lease_eligible status = any (same status) (ready ∷ changes_requested ∷ escalated ∷ [])

pub record AcquireLeaseParams : Type 0 where
  pub task_id : ℕ
  pub worker_id : ℕ
  pub pool_id : ℕ
  pub ttl_seconds : ℕ
  pub actor : ActorInfo
  pub metadata : Option String

pub record LeaseAcquisitionResult : Type 0 where
  pub lease : LeaseRow
  pub task : TaskRow
  pub audit_event : AuditEvent
  -- What is emitted after the commit.
  pub events : List DomainEvent

abbrev pub acquisition_context : ActorInfo → TransitionContext
acquisition_context actor = record empty_context {
  lease_acquired = some true;
  is_operator = some (str_eq actor.type "operator");
}

-- The row that is inserted; `now` is in seconds, and so is the column.
abbrev pub new_lease : ℕ → ℕ → AcquireLeaseParams → LeaseRow
new_lease lease_id now p = record {
  lease_id = lease_id;
  task_id = p.task_id;
  worker_id = p.worker_id;
  pool_id = p.pool_id;
  status = leased;
  leased_at = now;
  expires_at = now + p.ttl_seconds;
  heartbeat_at = none;
  reclaim_reason = none;
}

abbrev pub assign_to : ℕ → TaskRow → TaskRow
assign_to lease_id row = record row { status = assigned; current_lease_id = some lease_id }

-- `if (activeLease) throw new ExclusivityViolationError(…)`.
abbrev pub refuse_active : ℕ → Option LeaseRow → Result (Unit {0})
refuse_active task_id none = ok tt
refuse_active task_id (some active) =
    throw (ServiceError.exclusivity_violation task_id active.lease_id)

abbrev pub acquisition_audit : ℕ → AcquireLeaseParams → TaskRow → TaskRow → AuditEvent
acquisition_audit lease_id p task updated = record {
  entity_type = EntityType.task;
  entity_id = p.task_id;
  event_type = "lease.acquired";
  actor = p.actor;
  old_state = AuditState.assignment task.status task.version task.current_lease_id;
  new_state = AuditState.assignment updated.status updated.version (some lease_id);
  metadata = p.metadata;
}

abbrev pub acquisition_events : ℕ → AcquireLeaseParams → TaskRow → TaskRow → List DomainEvent
acquisition_events lease_id p task updated =
    DomainEvent.task_transitioned p.task_id p.actor task.status assigned updated.version
    ∷ DomainEvent.lease_transitioned lease_id p.actor idle leased
    ∷ []

-- The steps after the checks.
unfoldable pub assign_lease :
    ℕ → ℕ → AcquireLeaseParams → TaskRow → Tables → Result (Tables × LeaseAcquisitionResult)
assign_lease lease_id now p task db = do
  inserted ← insert_lease (new_lease lease_id now p) db
  written ← update_task p.task_id task.version (assign_to lease_id) inserted
  let audit = acquisition_audit lease_id p task written.1
  ok (
    record_audit audit written.0,
    record {
      lease = new_lease lease_id now p;
      task = written.1;
      audit_event = audit;
      events = acquisition_events lease_id p task written.1;
    },
  )

-- The checks of `acquireLease` on the task that was found.
unfoldable pub check_acquisition : AcquireLeaseParams → TaskRow → Tables → Result (Unit {0})
unfolding is_lease_eligible
check_acquisition p task db = do
  unless_throw (is_lease_eligible task.status)
      (ServiceError.task_not_ready_for_lease p.task_id task.status)
  refuse_active p.task_id (find_active_by_task_id p.task_id db)
  let validation = validate_transition task.status assigned (acquisition_context p.actor)
  unless_throw validation.valid (
      ServiceError.invalid_transition EntityType.task p.task_id (Status.of_task task.status)
        (Status.of_task assigned) validation.reason)

-- `lease_id` is what the generator gives, `now` the time in seconds.
unfoldable pub acquire_lease :
    ℕ → ℕ → AcquireLeaseParams → Tables → Result (Tables × LeaseAcquisitionResult)
acquire_lease lease_id now p db = do
  task ← or_throw (find_task p.task_id db) (ServiceError.entity_not_found EntityType.task p.task_id)
  check_acquisition p task db
  assign_lease lease_id now p task db
