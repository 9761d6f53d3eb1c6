-- ===== src/Service/Tables.antt =====
-- The tables of tasks, leases and worker pools: the columns of
-- apps/control-plane/src/infrastructure/database/schema.ts that the services use, the queries of
-- infrastructure/repositories/task.repository.ts and task-lease.repository.ts, and the audit events and
-- domain events that the services write. Columns of time hold seconds.
pub mod Rows
pub mod Exclusive
use copilot_factory.Prelude.{
  ℕ, ◌+◌, Bool, true, false, not, ◌&&◌, ◌||◌, ◌==◌, Option, none, some, String, List, any, push,
  same, find_first, replace_first,
}
use copilot_factory.Domain.Status.Task.{TaskStatus}
use copilot_factory.Domain.Status.Lease.{WorkerLeaseStatus, lease_status_enum}
use copilot_factory.Domain.Status.Job.{WorkerPoolType}
use copilot_factory.Domain.Status.Review.{ReviewCycleStatus}
use copilot_factory.Domain.Status.Queue.{MergeQueueItemStatus}
use copilot_factory.Domain.Policy.Escalation.{EscalationAction}
use copilot_factory.Service.Errors.{
  Result, ok, throw, ◌>>=◌, ◌>>◌, if_throw, unless_throw, EntityType, ServiceError, Version, Status,
}

pub data ReclaimReason : Type 0 where
  missed_heartbeats ttl_expired worker_crashed : ReclaimReason

pub data ReclaimOutcome : Type 0 where
  retried failed escalated : ReclaimOutcome

pub record TaskRow : Type 0 where
  pub task_id : ℕ
  pub status : TaskStatus
  pub version : ℕ
  pub retry_count : ℕ
  pub current_lease_id : Option ℕ

pub record LeaseRow : Type 0 where
  pub lease_id : ℕ
  pub task_id : ℕ
  pub worker_id : ℕ
  pub pool_id : ℕ
  pub status : WorkerLeaseStatus
  pub leased_at : ℕ
  pub expires_at : ℕ
  pub heartbeat_at : Option ℕ
  pub reclaim_reason : Option ReclaimReason

-- The columns of the table of worker pools that the adapter reads.
pub record PoolRow : Type 0 where
  pub worker_pool_id : ℕ
  pub pool_type : WorkerPoolType
  pub capabilities : List String
  pub max_concurrency : ℕ
  pub default_timeout_sec : Option ℕ
  pub enabled : Bool

pub record ActorInfo : Type 0 where
  pub type : String
  pub id : ℕ

-- The objects that the services write as `oldState` and `newState`, field by field.
pub data AuditState : Type 0 where
  assignment : TaskStatus → ℕ → Option ℕ → AuditState
  versioned : TaskStatus → ℕ → AuditState
  status_only : Status → AuditState
  heartbeat : WorkerLeaseStatus → Option ℕ → ℕ → AuditState
  result_before : WorkerLeaseStatus → ℕ → AuditState
  result_rejected : ℕ → ℕ → AuditState
  result_accepted : Bool → ℕ → ℕ → AuditState
  before_reclaim : WorkerLeaseStatus → TaskStatus → ℕ → ℕ → AuditState
  reclaim_noop : WorkerLeaseStatus → TaskStatus → ℕ → ReclaimReason → AuditState
  after_reclaim :
      WorkerLeaseStatus
      → TaskStatus
      → ℕ
      → ℕ
      → ReclaimOutcome
      → ReclaimReason
      → Bool
      → Option EscalationAction
      → AuditState

pub record AuditEvent : Type 0 where
  pub entity_type : EntityType
  pub entity_id : ℕ
  pub event_type : String
  pub actor : ActorInfo
  pub old_state : AuditState
  pub new_state : AuditState
  pub metadata : Option String

-- The time of a domain event is left out.
pub data DomainEvent : Type 0 where
  task_transitioned : ℕ → ActorInfo → TaskStatus → TaskStatus → ℕ → DomainEvent
  lease_transitioned : ℕ → ActorInfo → WorkerLeaseStatus → WorkerLeaseStatus → DomainEvent
  review_cycle_transitioned : ℕ → ActorInfo → ReviewCycleStatus → ReviewCycleStatus → DomainEvent
  merge_queue_item_transitioned :
      ℕ → ActorInfo → MergeQueueItemStatus → MergeQueueItemStatus → DomainEvent

pub record Tables : Type 0 where
  pub tasks : List TaskRow
  pub leases : List LeaseRow
  pub pools : List PoolRow
  pub audit_events : List AuditEvent

abbrev pub has_task_id : ℕ → TaskRow → Bool
has_task_id id row = row.task_id == id

abbrev pub has_lease_id : ℕ → LeaseRow → Bool
has_lease_id id row = row.lease_id == id

abbrev pub has_pool_id : ℕ → PoolRow → Bool
has_pool_id id row = row.worker_pool_id == id

abbrev pub find_task : ℕ → Tables → Option TaskRow
find_task id db = find_first (has_task_id id) db.tasks

abbrev pub find_lease : ℕ → Tables → Option LeaseRow
find_lease id db = find_first (has_lease_id id) db.leases

-- `TERMINAL_LEASE_STATUSES` lists "COMPLETED", which no status is, and the three below.
unfoldable pub is_active : WorkerLeaseStatus → Bool
is_active WorkerLeaseStatus.timed_out = false
is_active WorkerLeaseStatus.crashed = false
is_active WorkerLeaseStatus.reclaimed = false
is_active _ = true

abbrev pub is_active_for : ℕ → LeaseRow → Bool
is_active_for task_id row = row.task_id == task_id && is_active row.status

-- `findActiveByTaskId`.
abbrev pub find_active_by_task_id : ℕ → Tables → Option LeaseRow
find_active_by_task_id task_id db = find_first (is_active_for task_id) db.leases

-- `update` of the task repository: `WHERE task_id = ? AND version = ?`; the version goes up by one.
abbrev pub is_at_version : ℕ → ℕ → TaskRow → Bool
is_at_version id expected row = row.task_id == id && row.version == expected

abbrev pub with_version : ℕ → (TaskRow → TaskRow) → TaskRow → TaskRow
with_version expected set row = record (set row) { version = expected + 1 }

unfoldable pub update_task : ℕ → ℕ → (TaskRow → TaskRow) → Tables → Result (Tables × TaskRow)
update_task id expected set db = elim (find_first (is_at_version id expected) db.tasks) [
  | none ↦ throw (ServiceError.version_conflict EntityType.task id (Version.number expected))
  | some row ↦ ok (
    record db {
      tasks = replace_first (is_at_version id expected) (with_version expected set) db.tasks;
    },
    with_version expected set row,
  )
]

-- The ports' updates of a lease read the row again, compare its status, and update it by its key.
unfoldable pub update_lease :
    ℕ → WorkerLeaseStatus → (LeaseRow → LeaseRow) → Tables → Result (Tables × LeaseRow)
update_lease id expected set db = elim (find_lease id db) [
  | none ↦ throw (
      ServiceError.version_conflict EntityType.task_lease id
        (Version.status (Status.of_lease expected)))
  | some current ↦
      if_throw (not (same current.status expected)) (
        ServiceError.version_conflict EntityType.task_lease id
          (Version.status (Status.of_lease expected)))
      >> ok (record db { leases = replace_first (has_lease_id id) set db.leases }, set current)
]

-- `create` of the lease repository: the key has to be free, and the pool has to be there.
unfoldable pub insert_lease : LeaseRow → Tables → Result Tables
insert_lease row db =
    if_throw (any (has_lease_id row.lease_id) db.leases)
      (ServiceError.primary_key_violation EntityType.task_lease row.lease_id)
    >> unless_throw (any (has_pool_id row.pool_id) db.pools)
        (ServiceError.foreign_key_violation row.pool_id)
    >> ok (record db { leases = push db.leases row })

abbrev pub record_audit : AuditEvent → Tables → Tables
record_audit event db = record db { audit_events = push db.audit_events event }
