-- ===== src/Service/Transition.antt =====
-- packages/application/src/services/transition.service.ts, with the ports of
-- apps/control-plane/src/infrastructure/unit-of-work/repository-adapters.ts. A call is one transaction.
pub mod Task
pub mod Replayed
pub mod Cycles
pub mod Others
pub mod Retry
use Prim.Native.String.{◌++◌}
use copilot_factory.Prelude.{
  ℕ, ◌+◌, Bool, true, false, not, ◌==◌, Option, none, some, String, List, [], ◌∷◌, push, same, Enum,
  find_first, replace_first,
}
use copilot_factory.Domain.Status.Task.{TaskStatus}
use copilot_factory.Domain.Status.Lease.{WorkerLeaseStatus, lease_status_enum}
use copilot_factory.Domain.Status.Review.{ReviewCycleStatus, review_status_enum}
use copilot_factory.Domain.Status.Queue.{MergeQueueItemStatus, queue_status_enum}
use copilot_factory.Domain.Status.Text.{
  task_status_text, lease_status_text, review_status_text, queue_status_text,
}
use copilot_factory.Domain.Guards.{TransitionResult}
use copilot_factory.Domain.Machine.Task.Context.{TransitionContext}
use copilot_factory.Domain.Machine.Task.{validate_transition}
use copilot_factory.Domain.Machine.Lease.Guards.{WorkerLeaseTransitionContext}
use copilot_factory.Domain.Machine.Lease.{validate_worker_lease_transition}
use copilot_factory.Domain.Machine.Review.Guards.{ReviewCycleTransitionContext}
use copilot_factory.Domain.Machine.Review.{validate_review_cycle_transition}
use copilot_factory.Domain.Machine.Queue.Guards.{MergeQueueItemTransitionContext}
use copilot_factory.Domain.Machine.Queue.{validate_merge_queue_item_transition}
use copilot_factory.Service.Errors.{
  Result, ok, throw, ◌>>=◌, ◌>>◌, or_throw, unless_throw, if_throw, EntityType, ServiceError,
  Status, Version,
}
use copilot_factory.Service.Tables.{
  TaskRow, LeaseRow, ActorInfo, AuditEvent, AuditState, DomainEvent, Tables, find_task, find_lease,
  update_task, update_lease, record_audit,
}

-- The arguments that the four calls share; `metadata` is its text of JSON.
pub record Request (S C : Type 0) : Type 0 where
  pub id : ℕ
  pub target : S
  pub context : C
  pub actor : ActorInfo
  pub metadata : Option String

pub record TransitionOutcome (E : Type 0) : Type 0 where
  pub entity : E
  pub audit_event : AuditEvent
  -- What is emitted after the commit.
  pub event : DomainEvent

abbrev pub audit_of :
    {S C : Type 0} → EntityType → String → AuditState → AuditState → Request S C → AuditEvent
audit_of entity event_type old_state new_state r = record {
  entity_type = entity;
  entity_id = r.id;
  event_type = event_type;
  actor = r.actor;
  old_state = old_state;
  new_state = new_state;
  metadata = r.metadata;
}

-- `updateStatus` of the port of tasks: its row, with the status replaced.
abbrev pub set_task_status : TaskStatus → TaskRow → TaskRow
set_task_status status row = record row { status = status }

abbrev pub task_audit : TaskRow → Request TaskStatus TransitionContext → AuditEvent
task_audit task r =
    audit_of EntityType.task
      ("task.transition." ++ task_status_text task.status ++ ".to." ++ task_status_text r.target)
      (AuditState.versioned task.status task.version)
      (AuditState.versioned r.target (task.version + 1)) r

-- Steps 4 and 5: the audit event, and what is emitted after the commit.
abbrev pub task_outcome :
    TaskRow
    → Request TaskStatus TransitionContext
    → Tables × TaskRow
    → Tables × TransitionOutcome TaskRow
task_outcome task r updated = (
  record_audit (task_audit task r) updated.0,
  record {
    entity = updated.1;
    audit_event = task_audit task r;
    event = DomainEvent.task_transitioned r.id r.actor task.status r.target (task.version + 1);
  },
)

unfoldable pub transition_task :
    Request TaskStatus TransitionContext → Tables → Result (Tables × TransitionOutcome TaskRow)
transition_task r db = do
  task ← or_throw (find_task r.id db) (ServiceError.entity_not_found EntityType.task r.id)
  let validation = validate_transition task.status r.target r.context
  unless_throw validation.valid (
      ServiceError.invalid_transition EntityType.task r.id (Status.of_task task.status)
        (Status.of_task r.target) validation.reason)
  updated ← update_task r.id task.version (set_task_status r.target) db
  ok (task_outcome task r updated)

abbrev pub set_lease_status : WorkerLeaseStatus → LeaseRow → LeaseRow
set_lease_status status row = record row { status = status }

abbrev pub lease_audit :
    LeaseRow → Request WorkerLeaseStatus WorkerLeaseTransitionContext → AuditEvent
lease_audit lease r =
    audit_of EntityType.task_lease
      ("task-lease.transition."
        ++ lease_status_text lease.status
        ++ ".to."
        ++ lease_status_text r.target)
      (AuditState.status_only (Status.of_lease lease.status))
      (AuditState.status_only (Status.of_lease r.target)) r

abbrev pub lease_outcome :
    LeaseRow
    → Request WorkerLeaseStatus WorkerLeaseTransitionContext
    → Tables × LeaseRow
    → Tables × TransitionOutcome LeaseRow
lease_outcome lease r updated = (
  record_audit (lease_audit lease r) updated.0,
  record {
    entity = updated.1;
    audit_event = lease_audit lease r;
    event = DomainEvent.lease_transitioned r.id r.actor lease.status r.target;
  },
)

unfoldable pub transition_lease :
    Request WorkerLeaseStatus WorkerLeaseTransitionContext
    → Tables
    → Result (Tables × TransitionOutcome LeaseRow)
transition_lease r db = do
  lease ← or_throw (find_lease r.id db) (ServiceError.entity_not_found EntityType.task_lease r.id)
  let validation = validate_worker_lease_transition lease.status r.target r.context
  unless_throw validation.valid (
      ServiceError.invalid_transition EntityType.task_lease r.id (Status.of_lease lease.status)
        (Status.of_lease r.target) validation.reason)
  updated ← update_lease r.id lease.status (set_lease_status r.target) db
  ok (lease_outcome lease r updated)
