-- ===== src/Service/Scheduler/Outcome.antt =====
-- The results of `scheduleNext` of packages/application/src/services/scheduler.service.ts.
use copilot_factory.Prelude.{
  ℕ, ◌+◌, Bool, true, false, some, List, [], ◌∷◌, ◌≡◌, ◌⊎◌, inl, inr, refl, arith, Bool-cases,
  Option-cases, Memᴰ, not-nil,
}
use copilot_factory.Domain.Status.Job.{developer}
use copilot_factory.Service.Errors.{Result, ok, throw, ServiceError}
use copilot_factory.Service.Tables.{Tables}
use copilot_factory.Service.Lease.{LeaseAcquisitionResult, acquire_lease}
use copilot_factory.Service.Lease.Acquire.{acquire_lease-Acquired}
use copilot_factory.Service.Scheduler.{
  SchedulableTask, SchedulablePool, World, find_ready_by_priority, find_enabled_by_type,
  choose_pool,
}
use copilot_factory.Service.Scheduler.Run.{
  Draw, ScheduleSkipReason, ScheduleAssignmentResult, ScheduleResult, not_assigned, assigned,
  no_ready_tasks, no_compatible_pools, is_contention, lease_params, try_candidates, schedule_among,
  schedule_next,
}
use copilot_factory.Service.Scheduler.Assigned.{
  PassedOver, no_room, contended, Granted, Assignment, Failure, lease_failed, job_failed, Explains,
  later, dispatch-Explains,
}

try_candidates-Explains :
    (draws : ℕ → Draw) (pools : List SchedulablePool) (n : ℕ) (c : Bool)
    (tasks : List SchedulableTask) (w : World)
    → Explains draws pools w n tasks
        (try_candidates draws pools n c tasks w).0
        (try_candidates draws pools n c tasks w).1
unfolding try_candidates
try_candidates-Explains draws pools n c [] w = (refl, ground arith, λ t m. absurd (not-nil m))
try_candidates-Explains draws pools n c (task ∷ tasks) w =
    elim (Option-cases (choose_pool task pools)) [
      | inl e ↦
          let rest = try_candidates-Explains draws pools (n + 1) c tasks w in
          rw (try_candidates, e) (later draws pools w n task tasks _ _ (no_room e) rest)
      | inr (pool, e) ↦
          go pool e (try_candidates-Explains draws pools (n + 1) true tasks w)
            (acquire_lease (draws n).lease_id (draws n).now (lease_params (draws n) task pool) w.db)
            refl
    ]
  where
    go :
        (pool : SchedulablePool)
        → choose_pool task pools ≡ some pool
        → Explains draws pools w
            (n + 1)
            tasks
            (try_candidates draws pools (n + 1) true tasks w).0
            (try_candidates draws pools (n + 1) true tasks w).1
        → (r : Result (Tables × LeaseAcquisitionResult))
        → acquire_lease (draws n).lease_id (draws n).now (lease_params (draws n) task pool) w.db ≡ r
        → Explains draws pools w n
            (task ∷ tasks)
            (try_candidates draws pools n c (task ∷ tasks) w).0
            (try_candidates draws pools n c (task ∷ tasks) w).1
    go pool e rest (ok (db, lease)) h =
        rw (try_candidates, e, h) (dispatch-Explains draws pools w n task tasks pool db lease e h)
    go pool e rest (throw x) h = elim (Bool-cases (is_contention x)) [
      | inl t ↦
          rw (try_candidates, e, h, t)
            (later draws pools w n task tasks _ _ (contended n pool x e h t) rest)
      | inr t ↦ rw (try_candidates, e, h, t) (lease_failed n task pool (Memᴰ.head refl) e h t refl)
    ]

-- The developer pools and the candidates that a call reads first.
abbrev pub pools_of : World → List SchedulablePool
pools_of w = find_enabled_by_type developer w

abbrev pub Outcome : (ℕ → Draw) → ℕ → World → World → Result ScheduleResult → Type 0
Outcome draws limit w w' r = Explains draws (pools_of w) w 0 (find_ready_by_priority limit w) w' r

schedule_among-cases :
    (draws : ℕ → Draw) (pools : List SchedulablePool) (tasks : List SchedulableTask) (w : World)
    → ((r : ScheduleSkipReason) × (schedule_among draws pools tasks w ≡ (w, ok (not_assigned r 0)))
        × ((tasks ≡ []) ⊎ (pools ≡ [])))
      ⊎ (schedule_among draws pools tasks w ≡ try_candidates draws pools 0 false tasks w)
schedule_among-cases draws pools [] w = inl (no_ready_tasks, refl, inl refl)
schedule_among-cases draws [] (t ∷ ts) w = inl (no_compatible_pools, refl, inr refl)
schedule_among-cases draws (p ∷ ps) (t ∷ ts) w = inr refl

-- When the call assigns a task.
pub schedule_next-Assignment :
    (draws : ℕ → Draw) (limit : ℕ) (w w' : World) (a : ScheduleAssignmentResult)
    → schedule_next draws limit w ≡ (w', ok (assigned a))
    → Assignment draws (pools_of w) w w' (find_ready_by_priority limit w) a
unfolding schedule_next
schedule_next-Assignment draws limit w w' a h =
    elim (schedule_among-cases draws (pools_of w) (find_ready_by_priority limit w) w) [
      | inl (r, e, _) ↦ absurd (cc)
      | inr e ↦
          let x =
            try_candidates-Explains draws (pools_of w) 0 false (find_ready_by_priority limit w) w in
          let e' : try_candidates draws (pools_of w) 0 false (find_ready_by_priority limit w) w
              ≡ (w', ok (assigned a)) =
            cc in
          rw e' at x
    ]

-- A call that assigns no task leaves every table as it was.
pub schedule_next-not_assigned :
    (draws : ℕ → Draw) (limit : ℕ) (w w' : World) (reason : ScheduleSkipReason) (n : ℕ)
    → schedule_next draws limit w ≡ (w', ok (not_assigned reason n))
    → (w' ≡ w)
      × ((pools_of w ≡ [])
          ⊎ ((t : SchedulableTask)
              → Memᴰ t (find_ready_by_priority limit w)
              → PassedOver draws (pools_of w) w t))
unfolding schedule_next
schedule_next-not_assigned draws limit w w' reason n h =
    elim (schedule_among-cases draws (pools_of w) (find_ready_by_priority limit w) w) [
      | inl (r, e, inl none_ready) ↦ (cc, inr (λ t m. absurd (not-nil (rw none_ready at m))))
      | inl (r, e, inr no_pools) ↦ (cc, inl no_pools)
      | inr e ↦
          let x =
            try_candidates-Explains draws (pools_of w) 0 false (find_ready_by_priority limit w) w in
          let e' : try_candidates draws (pools_of w) 0 false (find_ready_by_priority limit w) w
              ≡ (w', ok (not_assigned reason n)) =
            cc in
          let (same, _, passed) = rw e' at x in (same, inr passed)
    ]

-- Whatever the result, the tables of tasks and leases are those of before, or those that one grant left;
-- nothing else changes but the table of jobs.
pub schedule_next-db :
    (draws : ℕ → Draw) (limit : ℕ) (w : World)
    → ((schedule_next draws limit w).0.db.pools ≡ w.db.pools)
      × (((schedule_next draws limit w).0.db ≡ w.db)
          ⊎ Granted draws
              (pools_of w)
              w
              (schedule_next draws limit w).0.db
              (find_ready_by_priority limit w))
unfolding schedule_next
schedule_next-db draws limit w =
    elim (schedule_among-cases draws (pools_of w) (find_ready_by_priority limit w) w) [
      | inl (r, e, _) ↦ rw (schedule_next, e) (refl, inl refl)
      | inr e ↦
          rw (schedule_next, e)
            (go (try_candidates draws (pools_of w) 0 false (find_ready_by_priority limit w) w).0
              (try_candidates draws (pools_of w) 0 false (find_ready_by_priority limit w) w).1
              (try_candidates-Explains draws (pools_of w) 0 false (find_ready_by_priority limit w)
                w))
    ]
  where
    granted_pools :
        (db : Tables)
        → Granted draws (pools_of w) w db (find_ready_by_priority limit w)
        → db.pools ≡ w.db.pools
    granted_pools db g =
        let a =
          acquire_lease-Acquired (draws g.position).lease_id (draws g.position).now
            (lease_params (draws g.position) g.task g.pool) w.db db g.lease g.acquired in
        a.pools

    go :
        (w' : World) (r : Result ScheduleResult)
        → Outcome draws limit w w' r
        → (w'.db.pools ≡ w.db.pools)
          × ((w'.db ≡ w.db) ⊎ Granted draws (pools_of w) w w'.db (find_ready_by_priority limit w))
    go w' (ok (assigned a)) x = (granted_pools w'.db x.granted, inr x.granted)
    go w' (ok (not_assigned r k)) (same, _, _) = rw same (refl, inl refl)
    go w' (throw e) (lease_failed k t pool m c a x same) = rw same (refl, inl refl)
    go w' (throw e) (job_failed g c only) = (granted_pools w'.db g, inr g)

-- An error that the call passes on.
pub schedule_next-Failure :
    (draws : ℕ → Draw) (limit : ℕ) (w w' : World) (e : ServiceError)
    → schedule_next draws limit w ≡ (w', throw e)
    → Failure draws (pools_of w) w w' (find_ready_by_priority limit w) e
unfolding schedule_next
schedule_next-Failure draws limit w w' x h =
    elim (schedule_among-cases draws (pools_of w) (find_ready_by_priority limit w) w) [
      | inl (r, e, _) ↦ absurd (cc)
      | inr e ↦
          let y =
            try_candidates-Explains draws (pools_of w) 0 false (find_ready_by_priority limit w) w in
          let e' : try_candidates draws (pools_of w) 0 false (find_ready_by_priority limit w) w
              ≡ (w', throw x) =
            cc in
          rw e' at y
    ]
