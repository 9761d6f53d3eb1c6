-- ===== src/Scenarios/Scheduling.antt =====
-- Runs of the scheduler of packages/application/src/services/scheduler.service.ts.
use copilot_factory.Prelude.{
  ℕ, true, ◌≡◌, ◌↔◌, inl, inr, refl, none, [], ◌∷◌, not-nil, cases_cons, arith, sym, ◌∙◌,
}
use copilot_factory.Domain.Status.Task.{ready}
use copilot_factory.Domain.Status.Job.{TaskPriority, low, critical, developer}
use copilot_factory.Domain.Machine.Task.{validate_transition}
use copilot_factory.Service.Errors.{ok}
use copilot_factory.Service.Tables.{TaskRow, PoolRow, update_task, insert_lease}
use copilot_factory.Service.Tables.Exclusive.{IsExclusive}
use copilot_factory.Service.Lease.{
  is_lease_eligible, check_acquisition, assign_lease, acquire_lease, new_lease, assign_to,
  acquisition_audit, acquisition_events,
}
use copilot_factory.Service.Tables.{with_version, record_audit}
use copilot_factory.Service.Jobs.{create_job, new_job}
use copilot_factory.Service.Scheduler.{
  SchedulableTask, SchedulablePool, World, priority_rank, find_ready_by_priority,
  find_enabled_by_type, count_active, is_active_lease, is_pool_compatible, has_pool_capacity,
  select_from,
}
use copilot_factory.Service.Scheduler.Run.{
  Draw, ScheduleAssignmentResult, ScheduleResult, assigned, lease_params, dispatch_data, dispatch,
  try_candidates, schedule_next, not_assigned, all_pools_at_capacity,
}
use copilot_factory.Service.Scheduler.Order.{AreFirst, find_ready_by_priority-AreFirst}
use copilot_factory.Service.Scheduler.Dispatches.{Dispatched}
use copilot_factory.Service.Scheduler.Safety.{
  IsWithinCapacity, HasPoolKeys, schedule_next-IsWithinCapacity, schedule_next-IsExclusive,
  schedule_next-Dispatched,
}
use copilot_factory.Service.Scheduler.Progress.{IsFresh, Assignable, schedule_next-assigned_iff}

abbrev task_row : ℕ → TaskRow
task_row id = record {
  task_id = id;
  status = ready;
  version = 1;
  retry_count = 0;
  current_lease_id = none;
}

abbrev queued : ℕ → TaskPriority → SchedulableTask
queued id priority = record {
  task_id = id;
  repository_id = 1;
  priority = priority;
  required_capabilities = "typescript" ∷ [];
  created_at = 10;
}

abbrev pool_row : PoolRow
pool_row = record {
  worker_pool_id = 4;
  pool_type = developer;
  capabilities = "react" ∷ "typescript" ∷ [];
  max_concurrency = 1;
  default_timeout_sec = none;
  enabled = true;
}

abbrev world : World
world = record {
  db = record {
    tasks = task_row 7 ∷ task_row 8 ∷ [];
    leases = [];
    pools = pool_row ∷ [];
    audit_events = [];
  };
  queue = queued 7 low ∷ queued 8 critical ∷ [];
  jobs = [];
}

abbrev draws : ℕ → Draw
draws k = record { worker_id = 3; lease_id = 50; job_id = 60; now = 1000 }

world-HasPoolKeys : HasPoolKeys world
world-HasPoolKeys a b m n e = elim (cases_cons m) [
  | inl p ↦ elim (cases_cons n) [ inl q ↦ p ∙ sym q | inr k ↦ absurd (not-nil k) ]
  | inr k ↦ absurd (not-nil k)
]

world-IsWithinCapacity : IsWithinCapacity world
unfolding count_active
world-IsWithinCapacity pool m = omega arith

schedule_next-IsWithinCapacity_example : IsWithinCapacity (schedule_next draws 50 world).0
schedule_next-IsWithinCapacity_example =
    schedule_next-IsWithinCapacity draws 50 world world-HasPoolKeys world-IsWithinCapacity

schedule_next-IsExclusive_example : IsExclusive (schedule_next draws 50 world).0.db.leases
schedule_next-IsExclusive_example = schedule_next-IsExclusive draws 50 world tt

world-IsFresh : IsFresh draws world
world-IsFresh = record { leases = λ k. refl; jobs = λ k. refl }

schedule_next-assigned_iff_example :
    ((r : ScheduleResult) × ((schedule_next draws 50 world).1 ≡ ok r))
    × (((a : ScheduleAssignmentResult) × ((schedule_next draws 50 world).1 ≡ ok (assigned a)))
        ↔ Assignable 50 world)
schedule_next-assigned_iff_example = schedule_next-assigned_iff draws 50 world world-IsFresh

-- The critical task goes first, although it stands behind the other.
abbrev chosen : SchedulableTask
chosen = queued 8 critical

abbrev pool : SchedulablePool
pool = record {
  pool_id = 4;
  pool_type = developer;
  capabilities = "react" ∷ "typescript" ∷ [];
  max_concurrency = 1;
  active_lease_count = 0;
  default_timeout_sec = 0;
  enabled = true;
}

abbrev assigned_row : TaskRow
assigned_row = with_version 1 (assign_to 50) (task_row 8)

abbrev assignment : ScheduleAssignmentResult
assignment = record {
  task = chosen;
  pool = pool;
  lease_result = record {
    lease = new_lease 50 1000 (lease_params (draws 0) chosen pool);
    task = assigned_row;
    audit_event =
        acquisition_audit 50 (lease_params (draws 0) chosen pool) (task_row 8) assigned_row;
    events = acquisition_events 50 (lease_params (draws 0) chosen pool) (task_row 8) assigned_row;
  };
  dispatch_job = new_job 60 1000 (dispatch_data (draws 0) chosen pool 50);
}

abbrev world_after : World
world_after = record world {
  db = record_audit assignment.lease_result.audit_event (record world.db {
    tasks = task_row 7 ∷ assigned_row ∷ [];
    leases = assignment.lease_result.lease ∷ [];
  });
  jobs = assignment.dispatch_job ∷ [];
}

critical_assigned : schedule_next draws 50 world ≡ (world_after, ok (assigned assignment))
unfolding schedule_next find_enabled_by_type find_ready_by_priority priority_rank count_active
    try_candidates dispatch is_pool_compatible has_pool_capacity select_from acquire_lease
    check_acquisition is_lease_eligible validate_transition assign_lease insert_lease update_task
    create_job
critical_assigned = refl

schedule_next-Dispatched_example : Dispatched draws world world_after assignment
schedule_next-Dispatched_example =
    schedule_next-Dispatched draws 50 world world_after assignment critical_assigned

-- The pool is full, so the other task stays.
full : schedule_next draws 50 world_after ≡ (world_after, ok (not_assigned all_pools_at_capacity 1))
unfolding schedule_next find_enabled_by_type find_ready_by_priority priority_rank count_active
    is_active_lease try_candidates is_pool_compatible has_pool_capacity select_from
full = refl

find_ready_by_priority-AreFirst_example : AreFirst 1 world (find_ready_by_priority 1 world)
find_ready_by_priority-AreFirst_example = find_ready_by_priority-AreFirst 1 world
