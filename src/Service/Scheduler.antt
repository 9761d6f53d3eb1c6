-- ===== src/Service/Scheduler.antt =====
-- packages/application/src/services/scheduler.service.ts, with the adapter `createSchedulerUnitOfWork` of
-- apps/control-plane/src/automation/application-adapters.ts, over the lease service and the job queue.
pub mod Pools
pub mod Order
pub mod Run
pub mod Assigned
pub mod Outcome
pub mod Dispatches
pub mod Safety
pub mod Progress
pub mod Tick
use Prim.Native.String.{◌++◌}
use text.Mathlib.Text.{◌==◌ as str_eq}
use copilot_factory.Prelude.{
  ℕ, ◌+◌, ◌-◌, Bool, true, false, not, ◌&&◌, ◌||◌, Option, none, some, String, List, [], ◌∷◌, any,
  all, length, same, leb, ltb, ◌==◌, filterb, sort_by, take, map, if◌then◌else◌,
}
use copilot_factory.Domain.Status.Task.{TaskStatus, ready, task_status_enum}
use copilot_factory.Domain.Status.Lease.{
  WorkerLeaseStatus, leased, starting, running, heartbeating, completing, lease_status_enum,
}
use copilot_factory.Domain.Status.Job.{
  JobType, worker_dispatch, TaskPriority, critical, high, medium, low, WorkerPoolType, developer,
  pool_type_enum, task_priority_enum, task_priority_text, pool_type_text,
}
use copilot_factory.Service.Errors.{Result, ok, throw, EntityType, ServiceError}
use copilot_factory.Service.Tables.{TaskRow, LeaseRow, PoolRow, Tables, ActorInfo, find_task}
use copilot_factory.Service.Lease.{AcquireLeaseParams, LeaseAcquisitionResult, acquire_lease}
use copilot_factory.Service.JobTable.{JobRow, Payload}
use copilot_factory.Service.Jobs.{CreateJobData, create_job}

-- The status of the task, which the port has too, is that of the task's row.
pub record SchedulableTask : Type 0 where
  pub task_id : ℕ
  pub repository_id : ℕ
  pub priority : TaskPriority
  pub required_capabilities : List String
  pub created_at : ℕ

pub record SchedulablePool : Type 0 where
  pub pool_id : ℕ
  pub pool_type : WorkerPoolType
  pub capabilities : List String
  pub max_concurrency : ℕ
  pub active_lease_count : ℕ
  pub default_timeout_sec : ℕ
  pub enabled : Bool

-- The tables that the scheduler reads and writes, the pools among those of `db`; `queue` holds the other columns of the tasks.
pub record World : Type 0 where
  pub db : Tables
  pub queue : List SchedulableTask
  pub jobs : List JobRow

-- `PRIORITY_RANK` of the adapter, and the position in `PRIORITY_ORDER` of the service; the rank that the
-- adapter keeps for other texts is left out.
unfoldable pub priority_rank : TaskPriority → ℕ
priority_rank critical = 0
priority_rank high = 1
priority_rank medium = 2
priority_rank low = 3

-- `comparePriority(a, b) < 0`.
unfoldable pub goes_before : TaskPriority → TaskPriority → Bool
goes_before a b = ltb (task_priority_enum.index a) (task_priority_enum.index b)

-- The comparison that `findReadyByPriority` sorts by.
abbrev pub is_not_later : SchedulableTask → SchedulableTask → Bool
is_not_later left right =
    if priority_rank left.priority == priority_rank right.priority
    then leb left.created_at right.created_at
    else ltb (priority_rank left.priority) (priority_rank right.priority)

abbrev pub has_status : TaskStatus → Option TaskRow → Bool
has_status status none = false
has_status status (some row) = same row.status status

abbrev pub is_ready : Tables → SchedulableTask → Bool
is_ready db task = has_status ready (find_task task.task_id db)

unfoldable pub find_ready_by_priority : ℕ → World → List SchedulableTask
find_ready_by_priority limit w = take limit (sort_by is_not_later (filterb (is_ready w.db) w.queue))

-- `ACTIVE_LEASE_STATUSES`.
unfoldable pub is_active_lease : WorkerLeaseStatus → Bool
is_active_lease status =
    any (same status) (leased ∷ starting ∷ running ∷ heartbeating ∷ completing ∷ [])

-- `activeLeaseCounts.get(poolId) ?? 0`.
unfoldable pub count_active : ℕ → List LeaseRow → ℕ
count_active pool_id [] = 0
count_active pool_id (lease ∷ leases) =
    (if is_active_lease lease.status && lease.pool_id == pool_id then 1 else 0)
    + count_active pool_id leases

abbrev pub or_zero : Option ℕ → ℕ
or_zero none = 0
or_zero (some n) = n

abbrev pub schedulable : List LeaseRow → PoolRow → SchedulablePool
schedulable leases pool = record {
  pool_id = pool.worker_pool_id;
  pool_type = pool.pool_type;
  capabilities = pool.capabilities;
  max_concurrency = pool.max_concurrency;
  active_lease_count = count_active pool.worker_pool_id leases;
  default_timeout_sec = or_zero pool.default_timeout_sec;
  enabled = pool.enabled;
}

unfoldable pub find_enabled_by_type : WorkerPoolType → World → List SchedulablePool
find_enabled_by_type pool_type w =
    map (schedulable w.db.leases)
      (filterb (λ pool. same pool.pool_type pool_type) (filterb (λ pool. pool.enabled) w.db.pools))

-- `poolCapSet.has(cap)`.
abbrev pub provides : List String → String → Bool
provides capabilities cap = any (str_eq cap) capabilities

unfoldable pub is_pool_compatible : SchedulableTask → SchedulablePool → Bool
is_pool_compatible task pool = elim task.required_capabilities [
  | [] ↦ true
  | cap ∷ caps ↦ all (provides pool.capabilities) (cap ∷ caps)
]

unfoldable pub has_pool_capacity : SchedulablePool → Bool
has_pool_capacity pool = ltb pool.active_lease_count pool.max_concurrency

abbrev pub available : SchedulablePool → ℕ
available pool = pool.max_concurrency - pool.active_lease_count

-- `available > bestAvailable`, where `bestAvailable` is -1 while there is no `best`.
abbrev pub exceeds : ℕ → Option SchedulablePool → Bool
exceeds n none = true
exceeds n (some best) = ltb (available best) n

-- The loop of `selectBestPool`.
unfoldable pub select_from : Option SchedulablePool → List SchedulablePool → Option SchedulablePool
select_from best [] = best
select_from best (pool ∷ pools) =
    select_from
      (if has_pool_capacity pool && exceeds (available pool) best then some pool else best) pools

abbrev pub select_best_pool : List SchedulablePool → Option SchedulablePool
select_best_pool = select_from none

-- `no pool is compatible` and `all compatible pools are full` both go on to the next task.
abbrev pub choose_pool : SchedulableTask → List SchedulablePool → Option SchedulablePool
choose_pool task pools = select_best_pool (filterb (is_pool_compatible task) pools)
