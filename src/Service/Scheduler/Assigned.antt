-- ===== src/Service/Scheduler/Assigned.antt =====
-- What a call of `scheduleNext` of packages/application/src/services/scheduler.service.ts did, read off its
-- result.
use copilot_factory.Prelude.{
  ℕ, ◌+◌, true, false, none, some, List, [], ◌∷◌, ◌++◌, length, ◌≡◌, inl, inr, refl, ap, arith,
  Memᴰ, not-nil, cases_cons,
}
use copilot_factory.Service.Errors.{Result, ok, throw, ServiceError}
use copilot_factory.Service.Tables.{Tables}
use copilot_factory.Service.Lease.{LeaseAcquisitionResult, acquire_lease}
use copilot_factory.Service.JobTable.{JobRow}
use copilot_factory.Service.Jobs.{create_job}
use copilot_factory.Service.Scheduler.{SchedulableTask, SchedulablePool, World, choose_pool}
use copilot_factory.Service.Scheduler.Run.{
  Draw, ScheduleAssignmentResult, ScheduleResult, not_assigned, assigned, is_contention,
  lease_params, dispatch_data, dispatch,
}

module _ (draws : ℕ → Draw) (pools : List SchedulablePool) where
  -- Why a candidate was passed over.
  pub data PassedOver (w : World) (task : SchedulableTask) : Type 0 where
    no_room : choose_pool task pools ≡ none → PassedOver w task
    contended :
        (k : ℕ) (pool : SchedulablePool) (e : ServiceError)
        → choose_pool task pools ≡ some pool
        → acquire_lease (draws k).lease_id (draws k).now (lease_params (draws k) task pool) w.db
          ≡ throw e
        → is_contention e ≡ true
        → PassedOver w task

  -- A lease that was given.
  pub record Granted (w : World) (db : Tables) (tasks : List SchedulableTask) : Type 0 where
    pub task : SchedulableTask
    pub pool : SchedulablePool
    pub position : ℕ
    pub lease : LeaseAcquisitionResult
    pub listed : Memᴰ task tasks
    pub chosen : choose_pool task pools ≡ some pool
    pub acquired :
        acquire_lease
          (draws position).lease_id
          (draws position).now
          (lease_params (draws position) task pool)
          w.db
        ≡ ok (db, lease)

  -- An assignment: the candidates before the task were passed over.
  pub record Assignment (w w' : World) (tasks : List SchedulableTask) (a : ScheduleAssignmentResult)
      : Type 0 where
    pub granted : Granted w w'.db tasks
    pub same_task : granted.task ≡ a.task
    pub same_pool : granted.pool ≡ a.pool
    pub same_lease : granted.lease ≡ a.lease_result
    pub before : List SchedulableTask
    pub behind : List SchedulableTask
    pub order : tasks ≡ before ++ a.task ∷ behind
    pub passed : (t : SchedulableTask) → Memᴰ t before → PassedOver w t
    pub created :
        create_job
          (draws granted.position).job_id
          (draws granted.position).now
          (dispatch_data (draws granted.position) a.task a.pool a.lease_result.lease.lease_id)
          w.jobs
        ≡ ok (w'.jobs, a.dispatch_job)
    pub queue : w'.queue ≡ w.queue

  -- An error: of the lease service, which leaves everything as it was, or of the job queue, which leaves
  -- the lease.
  pub data Failure (w w' : World) (tasks : List SchedulableTask) (e : ServiceError) : Type 0 where
    lease_failed :
        (k : ℕ) (task : SchedulableTask) (pool : SchedulablePool)
        → Memᴰ task tasks
        → choose_pool task pools ≡ some pool
        → acquire_lease (draws k).lease_id (draws k).now (lease_params (draws k) task pool) w.db
          ≡ throw e
        → is_contention e ≡ false
        → w' ≡ w
        → Failure w w' tasks e
    job_failed :
        (g : Granted w w'.db tasks)
        → create_job
            (draws g.position).job_id
            (draws g.position).now
            (dispatch_data (draws g.position) g.task g.pool g.lease.lease.lease_id)
            w.jobs
          ≡ throw e
        → w' ≡ record w { db = w'.db }
        → Failure w w' tasks e

  abbrev pub Explains : World → ℕ → List SchedulableTask → World → Result ScheduleResult → Type 0
  Explains w n tasks w' (ok (assigned a)) = Assignment w w' tasks a
  Explains w n tasks w' (ok (not_assigned reason k)) =
      (w' ≡ w) × (k ≡ n + length tasks) × ((t : SchedulableTask) → Memᴰ t tasks → PassedOver w t)
  Explains w n tasks w' (throw e) = Failure w w' tasks e

  abbrev later_Granted :
      (w : World) (db : Tables) (task : SchedulableTask) (tasks : List SchedulableTask)
      → Granted w db tasks
      → Granted w db (task ∷ tasks)
  later_Granted w db task tasks g = record {
    task = g.task;
    pool = g.pool;
    position = g.position;
    lease = g.lease;
    listed = Memᴰ.tail g.listed;
    chosen = g.chosen;
    acquired = g.acquired;
  }

  pub later :
      (w : World) (n : ℕ) (task : SchedulableTask) (tasks : List SchedulableTask) (w' : World)
      (r : Result ScheduleResult)
      → PassedOver w task
      → Explains w (n + 1) tasks w' r
      → Explains w n (task ∷ tasks) w' r
  later w n task tasks w' (ok (assigned a)) p x = record {
    granted = later_Granted w w'.db task tasks x.granted;
    same_task = x.same_task;
    same_pool = x.same_pool;
    same_lease = x.same_lease;
    before = task ∷ x.before;
    behind = x.behind;
    order = ap (◌∷◌ task) x.order;
    passed = λ t m. elim (cases_cons m) [ inl e ↦ rw e p | inr k ↦ x.passed t k ];
    created = x.created;
    queue = x.queue;
  }
  later w n task tasks w' (ok (not_assigned reason k)) p (same, count, passed) =
      (same, ground arith, λ t m. elim (cases_cons m) [ inl e ↦ rw e p | inr l ↦ passed t l ])
  later w n task tasks w' (throw e) p (lease_failed k t pool m c a x same) =
      lease_failed k t pool (Memᴰ.tail m) c a x same
  later w n task tasks w' (throw e) p (job_failed g c only) =
      job_failed (later_Granted w w'.db task tasks g) c only

  pub dispatch-Explains :
      (w : World) (n : ℕ) (task : SchedulableTask) (tasks : List SchedulableTask)
      (pool : SchedulablePool) (db : Tables) (lease : LeaseAcquisitionResult)
      → choose_pool task pools ≡ some pool
      → acquire_lease (draws n).lease_id (draws n).now (lease_params (draws n) task pool) w.db
        ≡ ok (db, lease)
      → Explains w n
          (task ∷ tasks)
          (dispatch (draws n) task pool db lease w).0
          (dispatch (draws n) task pool db lease w).1
  unfolding dispatch
  dispatch-Explains w n task tasks pool db lease c a =
      go
        (create_job (draws n).job_id (draws n).now
          (dispatch_data (draws n) task pool lease.lease.lease_id) w.jobs)
        refl
    where
      granted : Granted w db (task ∷ tasks)
      granted = record {
        task = task;
        pool = pool;
        position = n;
        lease = lease;
        listed = Memᴰ.head refl;
        chosen = c;
        acquired = a;
      }

      go :
          (r : Result (List JobRow × JobRow))
          → create_job
              (draws n).job_id
              (draws n).now
              (dispatch_data (draws n) task pool lease.lease.lease_id)
              w.jobs
            ≡ r
          → Explains w n
              (task ∷ tasks)
              (dispatch (draws n) task pool db lease w).0
              (dispatch (draws n) task pool db lease w).1
      go (throw e) h = rw (dispatch, h) (job_failed granted h refl)
      go (ok (jobs, job)) h =
          rw (dispatch, h)
            (record {
              granted = granted;
              same_task = refl;
              same_pool = refl;
              same_lease = refl;
              before = [];
              behind = tasks;
              order = refl;
              passed = λ t m. absurd (not-nil m);
              created = h;
              queue = refl;
            })
