-- ===== src/Service/Scheduler/Run.antt =====
-- The call `scheduleNext` of packages/application/src/services/scheduler.service.ts.
use Prim.Native.String.{◌++◌}
use copilot_factory.Prelude.{
  ℕ, ◌+◌, Bool, true, false, none, some, String, List, [], ◌∷◌, if◌then◌else◌, ◌==◌,
}
use copilot_factory.Domain.Status.Job.{JobType, developer, task_priority_text, pool_type_text}
use copilot_factory.Service.Errors.{Result, ok, throw, EntityType, ServiceError}
use copilot_factory.Service.Tables.{Tables, ActorInfo}
use copilot_factory.Service.Lease.{AcquireLeaseParams, LeaseAcquisitionResult, acquire_lease}
use copilot_factory.Service.JobTable.{JobRow, Payload}
use copilot_factory.Service.Jobs.{CreateJobData, create_job}
use copilot_factory.Service.Scheduler.{
  SchedulableTask, SchedulablePool, World, find_ready_by_priority, find_enabled_by_type,
  choose_pool,
}

pub data ScheduleSkipReason : Type 0 where
  no_ready_tasks no_compatible_pools all_pools_at_capacity all_candidates_contended :
      ScheduleSkipReason

pub record ScheduleAssignmentResult : Type 0 where
  pub task : SchedulableTask
  pub pool : SchedulablePool
  pub lease_result : LeaseAcquisitionResult
  pub dispatch_job : JobRow

pub data ScheduleResult : Type 0 where
  not_assigned : ScheduleSkipReason → ℕ → ScheduleResult
  assigned : ScheduleAssignmentResult → ScheduleResult

-- What the generators and the clock give while one candidate is evaluated.
pub record Draw : Type 0 where
  pub worker_id : ℕ
  pub lease_id : ℕ
  pub job_id : ℕ
  pub now : ℕ

-- The identifier 0 stands for the text "scheduler".
abbrev pub scheduler_actor : ActorInfo
scheduler_actor = record { type = "system"; id = 0 }

-- `selectedPool.defaultTimeoutSec || DEFAULT_LEASE_TTL_SECONDS`.
unfoldable pub lease_ttl : SchedulablePool → ℕ
lease_ttl pool = if pool.default_timeout_sec == 0 then 3600 else pool.default_timeout_sec

-- The text of `JSON.stringify({ scheduledPriority, poolType })`.
unfoldable pub lease_metadata : SchedulableTask → SchedulablePool → String
lease_metadata task pool =
    "{\"scheduledPriority\":\""
    ++ task_priority_text task.priority
    ++ "\",\"poolType\":\""
    ++ pool_type_text pool.pool_type
    ++ "\"}"

abbrev pub lease_params : Draw → SchedulableTask → SchedulablePool → AcquireLeaseParams
lease_params draw task pool = record {
  task_id = task.task_id;
  worker_id = draw.worker_id;
  pool_id = pool.pool_id;
  ttl_seconds = lease_ttl pool;
  actor = scheduler_actor;
  metadata = some (lease_metadata task pool);
}

abbrev pub dispatch_data : Draw → SchedulableTask → SchedulablePool → ℕ → CreateJobData
dispatch_data draw task pool lease_id = record {
  job_type = JobType.worker_dispatch;
  entity_type = some EntityType.task;
  entity_id = some task.task_id;
  payload_json = some (
      Payload.worker_dispatch task.task_id lease_id pool.pool_id draw.worker_id task.priority
        task.required_capabilities);
  run_after = none;
  parent_job_id = none;
  job_group_id = none;
  depends_on_job_ids = none;
}

-- The errors that the loop takes for a race.
unfoldable pub is_contention : ServiceError → Bool
is_contention (ServiceError.exclusivity_violation task_id lease_id) = true
is_contention (ServiceError.task_not_ready_for_lease task_id status) = true
is_contention _ = false

-- After the lease: the two calls are transactions of their own, so the lease stays when the job fails.
unfoldable pub dispatch :
    Draw
    → SchedulableTask
    → SchedulablePool
    → Tables
    → LeaseAcquisitionResult
    → World
    → World × Result ScheduleResult
dispatch draw task pool db lease w =
    elim (create_job draw.job_id draw.now (dispatch_data draw task pool lease.lease.lease_id)
      w.jobs) [
        | throw e ↦ (record w { db = db }, throw e)
        | ok (jobs, job) ↦ (
          record w { db = db; jobs = jobs },
          ok (
              assigned
                (record { task = task; pool = pool; lease_result = lease; dispatch_job = job })),
        )
      ]

abbrev pub give_up : Bool → ScheduleSkipReason
give_up any_pool_had_capacity =
    if any_pool_had_capacity then all_candidates_contended else all_pools_at_capacity

-- The loop over the candidates: how many were evaluated, and whether any had a pool with capacity.
unfoldable pub try_candidates :
    (ℕ → Draw)
    → List SchedulablePool
    → ℕ
    → Bool
    → List SchedulableTask
    → World
    → World × Result ScheduleResult
try_candidates draws pools evaluated had_capacity [] w =
    (w, ok (not_assigned (give_up had_capacity) evaluated))
try_candidates draws pools evaluated had_capacity (task ∷ tasks) w = elim (choose_pool task pools) [
  | none ↦ try_candidates draws pools (evaluated + 1) had_capacity tasks w
  | some pool ↦
      elim (acquire_lease (draws evaluated).lease_id (draws evaluated).now
        (lease_params (draws evaluated) task pool) w.db) [
          | throw e ↦ elim (is_contention e) [
            | true ↦ try_candidates draws pools (evaluated + 1) true tasks w
            | false ↦ (w, throw e)
          ]
          | ok (db, lease) ↦ dispatch (draws evaluated) task pool db lease w
        ]
]

-- The early returns of `scheduleNext`.
abbrev pub schedule_among :
    (ℕ → Draw) → List SchedulablePool → List SchedulableTask → World → World × Result ScheduleResult
schedule_among draws pools [] w = (w, ok (not_assigned no_ready_tasks 0))
schedule_among draws [] tasks w = (w, ok (not_assigned no_compatible_pools 0))
schedule_among draws pools tasks w = try_candidates draws pools 0 false tasks w

unfoldable pub schedule_next : (ℕ → Draw) → ℕ → World → World × Result ScheduleResult
schedule_next draws limit w =
    schedule_among draws (find_enabled_by_type developer w) (find_ready_by_priority limit w) w
