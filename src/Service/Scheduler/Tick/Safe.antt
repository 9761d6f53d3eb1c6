-- ===== src/Service/Scheduler/Tick/Safe.antt =====
-- Pools and leases during a call of packages/application/src/services/scheduler-tick.service.ts.
use copilot_factory.Prelude.{ℕ, ◌+◌, some, List, ◌≡◌, inl, inr, refl, arith, Option-cases}
use copilot_factory.Domain.Status.Job.{scheduler_tick, job_type_enum, job_status_enum}
use copilot_factory.Service.Errors.{Result, ok, throw}
use copilot_factory.Service.Tables.Exclusive.{IsExclusive}
use copilot_factory.Service.JobTable.{JobRow}
use copilot_factory.Service.Jobs.{create_job, claim_job, complete_job}
use copilot_factory.Service.Scheduler.{World}
use copilot_factory.Service.Scheduler.Run.{Draw, schedule_next}
use copilot_factory.Service.Scheduler.Outcome.{schedule_next-db}
use copilot_factory.Service.Scheduler.Safety.{
  HasPoolKeys, IsWithinCapacity, schedule_next-IsWithinCapacity, schedule_next-IsExclusive,
}
use copilot_factory.Service.Scheduler.Tick.{
  SchedulerTickConfig, TickAssignmentSummary, TickDraw, ProcessTickResult, processed, tick_data,
  add_tick, enough, after_loop, finish_tick, process_tick,
}
use copilot_factory.Service.Scheduler.Tick.Loop.{
  Calls, no_call, call, Ends, exhausted, failed, run_scheduling_loop-Ends,
}

-- What the scheduler keeps over pools and leases.
pub record IsSafe (w : World) : Type 0 where
  pub keys : HasPoolKeys w
  pub within : IsWithinCapacity w
  pub exclusive : IsExclusive w.db.leases

schedule_next-IsSafe :
    (draws : ℕ → Draw) (limit : ℕ) (w : World) → IsSafe w → IsSafe (schedule_next draws limit w).0
schedule_next-IsSafe draws limit w s =
    let (same_pools, _) = schedule_next-db draws limit w in
    record {
      keys = λ a b m n. s.keys a b (rw same_pools at m) (rw same_pools at n);
      within = schedule_next-IsWithinCapacity draws limit w s.keys s.within;
      exclusive = schedule_next-IsExclusive draws limit w s.exclusive;
    }

Calls-IsSafe :
    {draws : ℕ → ℕ → Draw} {limit : ℕ} {v v' : World} {i j : ℕ}
    → Calls draws limit v i v' j
    → IsSafe v
    → IsSafe v'
Calls-IsSafe no_call s = s
Calls-IsSafe {draws} {limit} (call {w} {w1} {n} a g rest) s =
    Calls-IsSafe rest (rw g at (schedule_next-IsSafe (draws n) limit w s))

Ends-IsSafe :
    {draws : ℕ → ℕ → Draw} {limit : ℕ} {v v' : World} {i : ℕ} (r : Result TickAssignmentSummary)
    → Ends draws limit v i v' r
    → IsSafe v
    → IsSafe v'
Ends-IsSafe r (exhausted reason k calls stop) s = Calls-IsSafe calls s
Ends-IsSafe {draws} {limit} r (failed {m} {w1} e calls stop) s =
    rw stop at (schedule_next-IsSafe (draws m) limit w1 (Calls-IsSafe calls s))

module _ (config : SchedulerTickConfig) (draw : TickDraw) where
  finish_tick-IsSafe :
      (id : ℕ) (summary : TickAssignmentSummary) (w : World)
      → IsSafe w
      → IsSafe (finish_tick config draw id summary w).0
  unfolding finish_tick
  finish_tick-IsSafe id summary w s = go (complete_job draw.completed_at id w.jobs) refl
    where
      next :
          (v : World)
          → IsSafe v
          → (r : Result (List JobRow × JobRow))
          → create_job draw.next_job_id draw.created_at
              (tick_data (some (draw.next_from + config.tick_interval)))
              v.jobs
            ≡ r
          → IsSafe
              (add_tick draw.next_job_id draw.created_at
                (some (draw.next_from + config.tick_interval))
                (processed id summary)
                v).0
      next v s (throw e) h = rw (add_tick, h) s
      next v s (ok (jobs, job)) h =
          rw (add_tick, h) (record { keys = s.keys; within = s.within; exclusive = s.exclusive })

      go :
          (r : Result (List JobRow × JobRow))
          → complete_job draw.completed_at id w.jobs ≡ r
          → IsSafe (finish_tick config draw id summary w).0
      go (throw e) h = rw (finish_tick, h) s
      go (ok (jobs, job)) h =
          rw (finish_tick, h)
            (next (record w { jobs = jobs })
              (record { keys = s.keys; within = s.within; exclusive = s.exclusive }) _ refl)

  pub process_tick-IsSafe :
      (w w' : World) (r : Result ProcessTickResult)
      → process_tick config draw w ≡ some (w', r)
      → IsSafe w
      → IsSafe w'
  unfolding process_tick
  process_tick-IsSafe w w' r h s =
      elim (Option-cases (claim_job scheduler_tick config.lease_owner draw.claimed_at w.jobs)) [
        | inl e ↦
            let h' = rw (e, process_tick) at h in let same_world : w' ≡ w = cc in rw same_world s
        | inr ((jobs, job), e) ↦
            let (w1, r1, l, ends) =
              run_scheduling_loop-Ends draw.draws config.candidate_limit (enough w) 0
                (record w { jobs = jobs }) (omega arith) in
            let h' = rw (e, l, process_tick) at h in
            let same_world : w' ≡ (after_loop config draw job.job_id (w1, r1)).0 = cc in
            rw same_world (
              go job.job_id w1 r1 (
                Ends-IsSafe r1 ends
                  (record { keys = s.keys; within = s.within; exclusive = s.exclusive })))
      ]
    where
      go :
          (id : ℕ) (w1 : World) (r1 : Result TickAssignmentSummary)
          → IsSafe w1
          → IsSafe (after_loop config draw id (w1, r1)).0
      go id w1 (ok summary) s = finish_tick-IsSafe id summary w1 s
      go id w1 (throw e) s = s
