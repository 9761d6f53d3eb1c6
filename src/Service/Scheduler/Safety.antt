-- ===== src/Service/Scheduler/Safety.antt =====
-- What packages/application/src/services/scheduler.service.ts keeps over the tables of tasks, leases, pools
-- and jobs.
use mathlib.Core.List.Memᴰ.{of_map}
use copilot_factory.Prelude.{
  ℕ, ◌+◌, ◌≤◌, true, ◌&&◌, ◌==◌, ==_iff, List, [], ◌∷◌, push, filterb, same, same_iff,
  if◌then◌else◌, ◌≡◌, inl, inr, ap, sym, ◌∙◌, arith, Bool-cases, Memᴰ, Memᴰ-filterb,
}
use copilot_factory.Domain.Status.Task.{task_status_enum}
use copilot_factory.Domain.Status.Lease.{lease_status_enum}
use copilot_factory.Domain.Status.Job.{developer, pool_type_enum}
use copilot_factory.Service.Errors.{ok}
use copilot_factory.Service.Tables.{LeaseRow, PoolRow}
use copilot_factory.Service.Tables.Exclusive.{IsExclusive}
use copilot_factory.Service.Lease.{new_lease, acquire_lease}
use copilot_factory.Service.Lease.Acquire.{acquire_lease-Acquired, acquire_lease-IsExclusive}
use copilot_factory.Service.Scheduler.{
  SchedulablePool, World, is_active_lease, count_active, schedulable, find_enabled_by_type,
}
use copilot_factory.Service.Scheduler.Run.{
  Draw, ScheduleAssignmentResult, assigned, lease_ttl, lease_params, dispatch_data, schedule_next,
}
use copilot_factory.Service.Scheduler.Pools.{choose_pool-Chosen}
use copilot_factory.Service.Scheduler.Order.{find_ready_by_priority-ready}
use copilot_factory.Service.Scheduler.Dispatches.{
  lease_ttl-LastsFor, Dispatched, acquired_lease, create_job-ok,
}
use copilot_factory.Service.Scheduler.Outcome.{pools_of, schedule_next-Assignment, schedule_next-db}

count_active-push :
    (id : ℕ) (leases : List LeaseRow) (lease : LeaseRow)
    → count_active id (push leases lease)
      ≡ count_active id leases
        + (if is_active_lease lease.status && lease.pool_id == id then 1 else 0)
unfolding count_active
count_active-push id [] lease = omega arith
count_active-push id (l ∷ ls) lease = omega (arith, count_active-push id ls lease)

pub pool_row :
    (w : World) (pool : SchedulablePool)
    → Memᴰ pool (pools_of w)
    → (row : PoolRow) × Memᴰ row w.db.pools
      × (schedulable w.db.leases row ≡ pool)
      × (row.enabled ≡ true)
      × (row.pool_type ≡ developer)
unfolding find_enabled_by_type
pool_row w pool m =
    let (row, k, e) =
      of_map (schedulable w.db.leases)
        (filterb (λ p. same p.pool_type developer) (filterb (λ p. p.enabled) w.db.pools)) m in
    let (k1, t) =
      Memᴰ-filterb (λ p. same p.pool_type developer) (filterb (λ p. p.enabled) w.db.pools) row k in
    let (k2, on) = Memᴰ-filterb (λ p. p.enabled) w.db.pools row k1 in
    (row, k2, e, on, (same_iff row.pool_type developer).0 t)

-- `worker_pool_id` is the primary key.
abbrev pub HasPoolKeys : World → Type 0
HasPoolKeys w =
    (a b : PoolRow)
    → Memᴰ a w.db.pools
    → Memᴰ b w.db.pools
    → a.worker_pool_id ≡ b.worker_pool_id
    → a ≡ b

abbrev pub IsWithinCapacity : World → Type 0
IsWithinCapacity w =
    (pool : PoolRow)
    → Memᴰ pool w.db.pools
    → count_active pool.worker_pool_id w.db.leases ≤ pool.max_concurrency

-- No call of `scheduleNext`, whether it assigns a task, assigns none or throws, brings a pool to more
-- active leases than its `maxConcurrency`.
pub schedule_next-IsWithinCapacity :
    (draws : ℕ → Draw) (limit : ℕ) (w : World)
    → HasPoolKeys w
    → IsWithinCapacity w
    → IsWithinCapacity (schedule_next draws limit w).0
schedule_next-IsWithinCapacity draws limit w keys within pool m =
    let (same_pools, d) = schedule_next-db draws limit w in
    let m' : Memᴰ pool w.db.pools = rw same_pools at m in
    elim d [
      | inl e ↦ rw e (within pool m')
      | inr g ↦
          let a =
            acquire_lease-Acquired (draws g.position).lease_id (draws g.position).now
              (lease_params (draws g.position) g.task g.pool) w.db
              (schedule_next draws limit w).0.db g.lease g.acquired in
          let c = choose_pool-Chosen g.task (pools_of w) g.pool g.chosen in
          let (row, k, e, _, _) = pool_row w g.pool c.listed in
          let n = count_active-push pool.worker_pool_id w.db.leases (
            new_lease (draws g.position).lease_id (draws g.position).now
              (lease_params (draws g.position) g.task g.pool)) in
          elim (Bool-cases (g.pool.pool_id == pool.worker_pool_id)) [
            | inl s ↦
                let own : row ≡ pool =
                  keys row pool k m'
                    (ap (λ p. p.pool_id) e ∙ (==_iff g.pool.pool_id pool.worker_pool_id).0 s) in
                let room = c.room in
                rw a.leases (
                  ground (
                    arith,
                    ap (λ p. p.active_lease_count) e,
                    ap (λ p. p.max_concurrency) e,
                    ap (λ r. r.max_concurrency) own,
                    ap (λ r. count_active r.worker_pool_id w.db.leases) own,
                  ))
            | inr s ↦ rw a.leases (ground (arith, within pool m'))
          ]
    ]

-- Nor does it give a task a second active lease.
pub schedule_next-IsExclusive :
    (draws : ℕ → Draw) (limit : ℕ) (w : World)
    → IsExclusive w.db.leases
    → IsExclusive (schedule_next draws limit w).0.db.leases
schedule_next-IsExclusive draws limit w x =
    let (_, d) = schedule_next-db draws limit w in
    elim d [
      | inl e ↦ rw e x
      | inr g ↦
          acquire_lease-IsExclusive (draws g.position).lease_id (draws g.position).now
            (lease_params (draws g.position) g.task g.pool) w.db (schedule_next draws limit w).0.db
            g.lease g.acquired x
    ]

-- A call that assigns a task took one that was queued, READY and without an active lease; its pool was
-- read from an enabled row for developers, provides every capability that the task requires, has room, and
-- has the most free slots of all such pools; the call added one lease, LEASED for that task, worker and
-- pool, which lasts as long as the row of the pool says or else an hour, and one PENDING job, due at once,
-- whose payload names the same task, lease, pool and worker.
pub schedule_next-Dispatched :
    (draws : ℕ → Draw) (limit : ℕ) (w w' : World) (a : ScheduleAssignmentResult)
    → schedule_next draws limit w ≡ (w', ok (assigned a))
    → Dispatched draws w w' a
schedule_next-Dispatched draws limit w w' a h =
    let x = schedule_next-Assignment draws limit w w' a h in
    let g = x.granted in
    let c =
      choose_pool-Chosen a.task (pools_of w) a.pool (rw (x.same_task, x.same_pool) at g.chosen) in
    let (row, listed, e, on, t) = pool_row w a.pool c.listed in
    let got : acquire_lease (draws g.position).lease_id (draws g.position).now
          (lease_params (draws g.position) a.task a.pool) w.db
        ≡ ok (w'.db, g.lease) =
      rw (x.same_task, x.same_pool) at g.acquired in
    let b =
      acquire_lease-Acquired (draws g.position).lease_id (draws g.position).now
        (lease_params (draws g.position) a.task a.pool) w.db w'.db g.lease got in
    let l =
      acquired_lease (draws g.position).lease_id (draws g.position).now
        (lease_params (draws g.position) a.task a.pool) w.db w'.db g.lease got in
    let (queued, was_ready) =
      find_ready_by_priority-ready limit w a.task (rw x.same_task at g.listed) in
    let same_id : a.lease_result.lease.lease_id ≡ (draws g.position).lease_id =
      ap (λ r. r.lease.lease_id) (sym x.same_lease) ∙ ap (λ r. r.lease_id) l in
    let same_pool : row.worker_pool_id ≡ a.pool.pool_id = ap (λ p. p.pool_id) e in
    let j =
      create_job-ok (draws g.position).job_id (draws g.position).now
        (dispatch_data (draws g.position) a.task a.pool a.lease_result.lease.lease_id) w.jobs
        (w'.jobs, a.dispatch_job) x.created in
    record {
      position = g.position;
      was_queued = queued;
      was_ready = was_ready;
      was_free = b.free;
      row = row;
      row_listed = listed;
      row_enabled = on;
      row_type = t;
      pool_id = sym same_pool;
      pool_capabilities = ap (λ p. p.capabilities) (sym e);
      pool_maximum = ap (λ p. p.max_concurrency) (sym e);
      pool_count = ap (λ p. p.active_lease_count) (sym e);
      pool_chosen = c;
      ttl = lease_ttl a.pool;
      lasts =
          lease_ttl-LastsFor row.default_timeout_sec a.pool
            (ap (λ p. p.default_timeout_sec) (sym e));
      leases = rw same_pool b.leases;
      jobs = rw same_pool (rw same_id at (ap (λ y. y.0) j));
    }
