-- ===== src/Service/Scheduler/Progress.antt =====
-- When `scheduleNext` of packages/application/src/services/scheduler.service.ts assigns a task.
use copilot_factory.Prelude.{
  ℕ, true, false, Option, none, some, List, any, same, same_iff, ◌≡◌, ◌↔◌, inl, inr, refl,
  Option-cases, Memᴰ, not-nil, push, any-Memᴰ, ==_iff, ap,
}
use copilot_factory.Domain.Status.Task.{TaskStatus, ready, task_status_enum}
use copilot_factory.Service.Errors.{Result, ok, throw, ServiceError}
use copilot_factory.Service.Tables.{
  TaskRow, LeaseRow, Tables, has_lease_id, has_pool_id, find_task, find_active_by_task_id,
}
use copilot_factory.Service.Lease.{
  AcquireLeaseParams, LeaseAcquisitionResult, acquire_lease, check_acquisition, is_lease_eligible,
}
use copilot_factory.Service.Lease.Acquire.{may_start, acquire_lease_iff, acquire_lease-Acquired}
use copilot_factory.Service.JobTable.{JobRow, has_job_id}
use copilot_factory.Service.Jobs.{CreateJobData, new_job, create_job}
use copilot_factory.Service.Scheduler.{
  SchedulableTask, SchedulablePool, World, has_status, find_ready_by_priority,
}
use copilot_factory.Service.Scheduler.Run.{
  Draw, ScheduleAssignmentResult, ScheduleResult, assigned, not_assigned, is_contention,
  lease_params, dispatch_data, schedule_next,
}
use copilot_factory.Service.Scheduler.Pools.{
  IsCompatible, HasRoom, choose_pool-Chosen, choose_pool-none_iff,
}
use copilot_factory.Service.Scheduler.Order.{find_ready_by_priority-ready}
use copilot_factory.Service.Scheduler.Assigned.{
  PassedOver, no_room, contended, Failure, lease_failed, job_failed,
}
use copilot_factory.Service.Scheduler.Safety.{pool_row}
use copilot_factory.Service.Scheduler.Outcome.{
  pools_of, schedule_next-Assignment, schedule_next-not_assigned, schedule_next-Failure,
}

-- The generators give identifiers that no row has.
pub record IsFresh (draws : ℕ → Draw) (w : World) : Type 0 where
  pub leases : (k : ℕ) → any (has_lease_id (draws k).lease_id) w.db.leases ≡ false
  pub jobs : (k : ℕ) → any (has_job_id (draws k).job_id) w.jobs ≡ false

ready_row :
    (status : TaskStatus) (found : Option TaskRow)
    → has_status status found ≡ true
    → (row : TaskRow) × (found ≡ some row) × (row.status ≡ status)
ready_row status none h = absurd (cc)
ready_row status (some row) h = (row, refl, (same_iff row.status status).0 h)

-- A READY task without an active lease gets one in a pool that is there.
free_acquired :
    (lease_id now : ℕ) (p : AcquireLeaseParams) (db : Tables)
    → has_status ready (find_task p.task_id db) ≡ true
    → find_active_by_task_id p.task_id db ≡ none
    → any (has_lease_id lease_id) db.leases ≡ false
    → any (has_pool_id p.pool_id) db.pools ≡ true
    → (x : Tables × LeaseAcquisitionResult) × (acquire_lease lease_id now p db ≡ ok x)
free_acquired lease_id now p db r free fresh there =
    let (row, found, status) = ready_row ready (find_task p.task_id db) r in
    (acquire_lease_iff lease_id now p db).1 (row, found, rw status may_start, free, fresh, there)

-- The pools that a call reads are there.
pool_there :
    (w : World) (pool : SchedulablePool)
    → Memᴰ pool (pools_of w)
    → any (has_pool_id pool.pool_id) w.db.pools ≡ true
pool_there w pool m =
    let (row, listed, e, _, _) = pool_row w pool m in
    any-Memᴰ (has_pool_id pool.pool_id) w.db.pools row listed
      ((==_iff row.worker_pool_id pool.pool_id).1 (ap (λ x. x.pool_id) e))

-- A READY task with an active lease is contended.
busy_refused :
    (lease_id now : ℕ) (p : AcquireLeaseParams) (db : Tables) (active : LeaseRow)
    → has_status ready (find_task p.task_id db) ≡ true
    → find_active_by_task_id p.task_id db ≡ some active
    → acquire_lease lease_id now p db
      ≡ throw (ServiceError.exclusivity_violation p.task_id active.lease_id)
unfolding acquire_lease check_acquisition is_lease_eligible
busy_refused lease_id now p db active r busy =
    let (row, found, status) = ready_row ready (find_task p.task_id db) r in
    rw (acquire_lease, found, check_acquisition, status, busy) refl

is_contention-busy :
    (task lease : ℕ) → is_contention (ServiceError.exclusivity_violation task lease) ≡ true
unfolding is_contention
is_contention-busy task lease = refl

fresh_created :
    (job_id now : ℕ) (d : CreateJobData) (jobs : List JobRow)
    → any (has_job_id job_id) jobs ≡ false
    → create_job job_id now d jobs ≡ ok (push jobs (new_job job_id now d), new_job job_id now d)
unfolding create_job
fresh_created job_id now d jobs h = rw (create_job, h) refl

-- With fresh identifiers nothing fails.
pub no_Failure :
    (draws : ℕ → Draw) (limit : ℕ) (w w' : World) (e : ServiceError)
    → IsFresh draws w
    → ¬ Failure draws (pools_of w) w w' (find_ready_by_priority limit w) e
no_Failure draws limit w w' e fresh (lease_failed k task pool m c a x same) =
    let (_, r) = find_ready_by_priority-ready limit w task m in
    let p = lease_params (draws k) task pool in
    elim (Option-cases (find_active_by_task_id task.task_id w.db)) [
      | inl free ↦
          let (y, g) =
            free_acquired (draws k).lease_id (draws k).now p w.db r free (fresh.leases k)
              (pool_there w pool (choose_pool-Chosen task (pools_of w) pool c).listed) in
          absurd (cc)
      | inr (active, busy) ↦
          let b = busy_refused (draws k).lease_id (draws k).now p w.db active r busy in
          let t = is_contention-busy task.task_id active.lease_id in absurd (cc)
    ]
no_Failure draws limit w w' e fresh (job_failed g c only) =
    let f =
      fresh_created (draws g.position).job_id (draws g.position).now
        (dispatch_data (draws g.position) g.task g.pool g.lease.lease.lease_id) w.jobs
        (fresh.jobs g.position) in
    absurd (cc)

-- A candidate that a call can assign.
pub record Assignable (limit : ℕ) (w : World) : Type 0 where
  pub task : SchedulableTask
  pub candidate : Memᴰ task (find_ready_by_priority limit w)
  pub free : find_active_by_task_id task.task_id w.db ≡ none
  pub pool : SchedulablePool
  pub pool_listed : Memᴰ pool (pools_of w)
  pub compatible : IsCompatible task pool
  pub room : HasRoom pool

no_PassedOver :
    (draws : ℕ → Draw) (limit : ℕ) (w : World) (x : Assignable limit w)
    → IsFresh draws w
    → ¬ PassedOver draws (pools_of w) w x.task
no_PassedOver draws limit w x fresh (no_room e) =
    (choose_pool-none_iff x.task (pools_of w)).0 e x.pool x.pool_listed x.compatible x.room
no_PassedOver draws limit w x fresh (contended k pool e c a t) =
    let (_, r) = find_ready_by_priority-ready limit w x.task x.candidate in
    let (y, g) =
      free_acquired (draws k).lease_id (draws k).now (lease_params (draws k) x.task pool) w.db r
        x.free (fresh.leases k)
        (pool_there w pool (choose_pool-Chosen x.task (pools_of w) pool c).listed) in
    absurd (cc)

assigned-Assignable :
    (draws : ℕ → Draw) (limit : ℕ) (w w' : World) (a : ScheduleAssignmentResult)
    → schedule_next draws limit w ≡ (w', ok (assigned a))
    → Assignable limit w
assigned-Assignable draws limit w w' a h =
    let x = schedule_next-Assignment draws limit w w' a h in
    let g = x.granted in
    let c = choose_pool-Chosen g.task (pools_of w) g.pool g.chosen in
    let got =
      acquire_lease-Acquired (draws g.position).lease_id (draws g.position).now
        (lease_params (draws g.position) g.task g.pool) w.db w'.db g.lease g.acquired in
    record {
      task = g.task;
      candidate = g.listed;
      free = got.free;
      pool = g.pool;
      pool_listed = c.listed;
      compatible = c.compatible;
      room = c.room;
    }

-- With fresh identifiers `scheduleNext` returns, and it assigns a task exactly when some candidate has no
-- active lease and a pool for developers that is enabled, provides its capabilities and has room: neither
-- candidates without a pool nor contended ones keep it from the others.
pub schedule_next-assigned_iff :
    (draws : ℕ → Draw) (limit : ℕ) (w : World)
    → IsFresh draws w
    → ((r : ScheduleResult) × ((schedule_next draws limit w).1 ≡ ok r))
      × (((a : ScheduleAssignmentResult) × ((schedule_next draws limit w).1 ≡ ok (assigned a)))
          ↔ Assignable limit w)
schedule_next-assigned_iff draws limit w fresh = go (schedule_next draws limit w) refl
  where
    go :
        (x : World × Result ScheduleResult)
        → schedule_next draws limit w ≡ x
        → ((r : ScheduleResult) × (x.1 ≡ ok r))
          × (((a : ScheduleAssignmentResult) × (x.1 ≡ ok (assigned a))) ↔ Assignable limit w)
    go (w', ok (assigned a)) e =
        ((assigned a, refl), (λ _. assigned-Assignable draws limit w w' a e, λ _. (a, refl)))
    go (w', ok (not_assigned reason n)) e = (
      (not_assigned reason n, refl),
      (
        λ (a, h). absurd (cc),
        λ x.
            let (_, p) = schedule_next-not_assigned draws limit w w' reason n e in
            elim p [
              | inl empty ↦ absurd (not-nil (rw empty at x.pool_listed))
              | inr passed ↦
                  absurd (no_PassedOver draws limit w x fresh (passed x.task x.candidate))
            ],
      ),
    )
    go (w', throw s) e =
        absurd (no_Failure draws limit w w' s fresh (schedule_next-Failure draws limit w w' s e))
