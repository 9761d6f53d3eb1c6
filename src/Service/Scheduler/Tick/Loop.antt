-- ===== src/Service/Scheduler/Tick/Loop.antt =====
-- The loop of packages/application/src/services/scheduler-tick.service.ts.
use copilot_factory.Prelude.{ℕ, zero, suc, ◌+◌, ◌<◌, true, some, length, filterb, ◌≡◌, refl, arith}
use copilot_factory.Domain.Status.Task.{task_status_enum}
use copilot_factory.Service.Errors.{Result, ok, throw, ServiceError}
use copilot_factory.Service.Tables.{is_at_version, with_version}
use copilot_factory.Service.Tables.Rows.{find_task-is_at_version}
use copilot_factory.Service.Lease.{assign_to}
use copilot_factory.Service.Lease.Acquire.{acquire_lease-Acquired}
use copilot_factory.Service.Scheduler.{World}
use copilot_factory.Service.Scheduler.Run.{
  Draw, ScheduleAssignmentResult, ScheduleSkipReason, ScheduleResult, assigned, not_assigned,
  lease_params, schedule_next,
}
use copilot_factory.Service.Scheduler.Order.{find_ready_by_priority-ready}
use copilot_factory.Service.Scheduler.Outcome.{schedule_next-Assignment, schedule_next-not_assigned}
use copilot_factory.Service.Scheduler.Tick.{
  TickAssignmentSummary, run_scheduling_loop, is_ready_row,
}
use copilot_factory.Service.Scheduler.Tick.Counts.{count-replace_first}

abbrev pub count_ready : World → ℕ
count_ready w = length (filterb is_ready_row w.db.tasks)

module _ (draws : ℕ → ℕ → Draw) (limit : ℕ) where
  -- Calls that assign a task each.
  pub data Calls : World → ℕ → World → ℕ → Type 0 where
    no_call : {w : World} {n : ℕ} → Calls w n w n
    call :
        {w w1 w2 : World} {n m : ℕ} (a : ScheduleAssignmentResult)
        → schedule_next (draws n) limit w ≡ (w1, ok (assigned a))
        → Calls w1 (n + 1) w2 m
        → Calls w n w2 m

  -- How the loop ends: after some assignments, with a call that assigns none or throws.
  pub data Ends (w : World) (n : ℕ) (w' : World) : Result TickAssignmentSummary → Type 0 where
    exhausted :
        {m : ℕ} (reason : ScheduleSkipReason) (k : ℕ)
        → Calls w n w' m
        → schedule_next (draws m) limit w' ≡ (w', ok (not_assigned reason k))
        → Ends w n w' (ok (record { assignment_count = m; stop_reason = reason }))
    failed :
        {m : ℕ} {w1 : World} (e : ServiceError)
        → Calls w n w1 m
        → schedule_next (draws m) limit w1 ≡ (w', throw e)
        → Ends w n w' (throw e)

  -- Every assignment takes one task out of READY.
  pub assigned-ready :
      (n : ℕ) (w w' : World) (a : ScheduleAssignmentResult)
      → schedule_next (draws n) limit w ≡ (w', ok (assigned a))
      → count_ready w' + 1 ≡ count_ready w
  assigned-ready n w w' a h =
      let x = schedule_next-Assignment (draws n) limit w w' a h in
      let g = x.granted in
      let (_, r) = find_ready_by_priority-ready limit w g.task g.listed in
      let b =
        acquire_lease-Acquired (draws n g.position).lease_id (draws n g.position).now
          (lease_params (draws n g.position) g.task g.pool) w.db w'.db g.lease g.acquired in
      let at_version = find_task-is_at_version g.task.task_id w.db.tasks b.task b.found in
      let was_ready : is_ready_row b.task ≡ true = rw b.found at r in
      let c =
        count-replace_first is_ready_row (is_at_version g.task.task_id b.task.version)
          (with_version b.task.version (assign_to (draws n g.position).lease_id)) w.db.tasks b.task
          at_version in
      rw b.tasks (omega (arith, rw was_ready at c))

  continued :
      {w w1 w' : World} {n : ℕ} (r : Result TickAssignmentSummary) (a : ScheduleAssignmentResult)
      → schedule_next (draws n) limit w ≡ (w1, ok (assigned a))
      → Ends w1 (n + 1) w' r
      → Ends w n w' r
  continued r a g (exhausted reason k calls stop) = exhausted reason k (call a g calls) stop
  continued r a g (failed e calls stop) = failed e (call a g calls) stop

  -- Fuel for every READY task and one call more is enough.
  pub run_scheduling_loop-Ends :
      (fuel n : ℕ) (w : World)
      → count_ready w < fuel
      → (w' : World) × (r : Result TickAssignmentSummary) × (run_scheduling_loop draws limit fuel n
            w
          ≡ some (w', r))
        × Ends w n w' r
  unfolding run_scheduling_loop
  run_scheduling_loop-Ends zero n w h = absurd (omega arith)
  run_scheduling_loop-Ends (suc fuel) n w h =
      go (λ w1 l. run_scheduling_loop-Ends fuel (n + 1) w1 l) (schedule_next (draws n) limit w) refl
    where
      go :
          ((w1 : World)
            → count_ready w1 < fuel
            → (w' : World) × (r : Result TickAssignmentSummary) × (run_scheduling_loop draws limit
                  fuel
                  (n + 1)
                  w1
                ≡ some (w', r))
              × Ends w1 (n + 1) w' r)
          → (x : World × Result ScheduleResult) → schedule_next (draws n) limit w ≡ x
          → (w' : World) × (r : Result TickAssignmentSummary) × (run_scheduling_loop draws limit
                (suc fuel)
                n
                w
              ≡ some (w', r))
            × Ends w n w' r
      go rest (w1, throw e) g = (w1, throw e, rw (run_scheduling_loop, g) refl, failed e no_call g)
      go rest (w1, ok (not_assigned reason k)) g =
          let (same, _) = schedule_next-not_assigned (draws n) limit w w1 reason k g in
          (
            w,
            ok (record { assignment_count = n; stop_reason = reason }),
            rw (run_scheduling_loop, g, same) refl,
            exhausted reason k no_call (rw same at g),
          )
      go rest (w1, ok (assigned a)) g =
          let fewer = assigned-ready n w w1 a g in
          let (w', r, e, ends) = rest w1 (omega arith) in
          (w', r, rw (run_scheduling_loop, g) e, continued r a g ends)
