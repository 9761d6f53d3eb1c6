-- ===== src/Service/Scheduler/Dispatches.antt =====
-- What a call of packages/application/src/services/scheduler.service.ts leaves that assigns a task.
use copilot_factory.Prelude.{
  ℕ, ◌+◌, ◌<◌, true, Option, some, ◌==◌, ==_iff, none, List, push, any, ◌≡◌, inl, inr, arith,
  Bool-cases, Memᴰ,
}
use copilot_factory.Domain.Status.Task.{task_status_enum}
use copilot_factory.Domain.Status.Lease.{leased, lease_status_enum}
use copilot_factory.Domain.Status.Job.{developer, worker_dispatch, pending, pool_type_enum}
use copilot_factory.Service.Errors.{ok, ◌>>◌, or_throw, EntityType, ServiceError, >>=-ok}
use copilot_factory.Service.Tables.{
  PoolRow, Tables, find_task, find_active_by_task_id, insert_lease, update_task,
}
use copilot_factory.Service.Lease.{
  AcquireLeaseParams, LeaseAcquisitionResult, new_lease, assign_to, check_acquisition, assign_lease,
  acquire_lease,
}
use copilot_factory.Service.JobTable.{JobRow, Payload, StoredIds, has_job_id}
use copilot_factory.Service.Jobs.{CreateJobData, new_job, create_job}
use copilot_factory.Service.Scheduler.{SchedulablePool, World, count_active, is_ready, or_zero}
use copilot_factory.Service.Scheduler.Run.{Draw, ScheduleAssignmentResult, lease_ttl}
use copilot_factory.Service.Scheduler.Pools.{Chosen}
use copilot_factory.Service.Scheduler.Outcome.{pools_of}

pub acquired_lease :
    (lease_id now : ℕ) (p : AcquireLeaseParams) (db db' : Tables) (r : LeaseAcquisitionResult)
    → acquire_lease lease_id now p db ≡ ok (db', r)
    → r.lease ≡ new_lease lease_id now p
unfolding acquire_lease assign_lease
acquired_lease lease_id now p db db' r h =
    let (task, found, h1) =
      >>=-ok
        (or_throw (find_task p.task_id db)
          (ServiceError.entity_not_found EntityType.task p.task_id))
        (λ task. check_acquisition p task db >> assign_lease lease_id now p task db) (db', r) h in
    let (u, checks, h2) = >>=-ok (check_acquisition p task db) _ _ h1 in
    let (db1, inserted, h3) = >>=-ok (insert_lease (new_lease lease_id now p) db) _ _ h2 in
    let (x, updated, h4) =
      >>=-ok (update_task p.task_id task.version (assign_to lease_id) db1) _ _ h3 in
    cc

pub create_job-ok :
    (job_id now : ℕ) (d : CreateJobData) (jobs : List JobRow) (x : List JobRow × JobRow)
    → create_job job_id now d jobs ≡ ok x
    → x ≡ (push jobs (new_job job_id now d), new_job job_id now d)
unfolding create_job
create_job-ok job_id now d jobs x h = elim (Bool-cases (any (has_job_id job_id) jobs)) [
  | inl e ↦ absurd (let h' = rw (e, create_job) at h in cc)
  | inr e ↦ let h' = rw (e, create_job) at h in cc
]

-- For how many seconds a lease of a pool lasts: what its row says, and an hour if it says nothing or zero.
pub data LastsFor : Option ℕ → ℕ → Type 0 where
  configured : (n : ℕ) → 0 < n → LastsFor (some n) n
  unset : LastsFor none 3600
  zeroed : LastsFor (some 0) 3600

pub lease_ttl-LastsFor :
    (t : Option ℕ) (pool : SchedulablePool)
    → pool.default_timeout_sec ≡ or_zero t
    → LastsFor t (lease_ttl pool)
unfolding lease_ttl
lease_ttl-LastsFor none pool e = rw (lease_ttl, e) unset
lease_ttl-LastsFor (some n) pool e = elim (Bool-cases (n == 0)) [
  | inl z ↦ let no_time = (==_iff n 0).0 z in rw (lease_ttl, e, no_time) zeroed
  | inr z ↦ rw (lease_ttl, e, z) (configured n (ground arith))
]

-- What a call leaves that assigns a task; `row` is the row of its pool, `draw` what the call drew for it.
pub record Dispatched (draws : ℕ → Draw) (w w' : World) (a : ScheduleAssignmentResult)
    : Type 0 where
  pub position : ℕ
  pub was_queued : Memᴰ a.task w.queue
  pub was_ready : is_ready w.db a.task ≡ true
  pub was_free : find_active_by_task_id a.task.task_id w.db ≡ none
  pub row : PoolRow
  pub row_listed : Memᴰ row w.db.pools
  pub row_enabled : row.enabled ≡ true
  pub row_type : row.pool_type ≡ developer
  pub pool_id : a.pool.pool_id ≡ row.worker_pool_id
  pub pool_capabilities : a.pool.capabilities ≡ row.capabilities
  pub pool_maximum : a.pool.max_concurrency ≡ row.max_concurrency
  pub pool_count : a.pool.active_lease_count ≡ count_active row.worker_pool_id w.db.leases
  pub pool_chosen : Chosen a.task (pools_of w) a.pool
  pub ttl : ℕ
  pub lasts : LastsFor row.default_timeout_sec ttl
  pub leases :
      w'.db.leases
      ≡ push w.db.leases (record {
        lease_id = (draws position).lease_id;
        task_id = a.task.task_id;
        worker_id = (draws position).worker_id;
        pool_id = row.worker_pool_id;
        status = leased;
        leased_at = (draws position).now;
        expires_at = (draws position).now + ttl;
        heartbeat_at = none;
        reclaim_reason = none;
      })
  pub jobs :
      w'.jobs
      ≡ push w.jobs (record {
        job_id = (draws position).job_id;
        job_type = worker_dispatch;
        entity_type = some EntityType.task;
        entity_id = some a.task.task_id;
        payload_json = some (
            Payload.worker_dispatch a.task.task_id
              (draws position).lease_id
              row.worker_pool_id
              (draws position).worker_id
              a.task.priority
              a.task.required_capabilities);
        status = pending;
        attempt_count = 0;
        run_after = none;
        lease_owner = none;
        parent_job_id = none;
        job_group_id = none;
        depends_on_job_ids = StoredIds.null;
        created_at = (draws position).now;
        updated_at = (draws position).now;
      })
