-- ===== src/Scenarios/Ticks.antt =====
-- Runs of packages/application/src/services/scheduler-tick.service.ts.
use copilot_factory.Prelude.{
  ℕ, ◌+◌, ◌≡◌, refl, none, some, [], ◌∷◌, arith, ◌≤◌, true, cases_cons, not-nil, inl, inr, sym, ◌∙◌,
}
use copilot_factory.Domain.Status.Task.{ready}
use copilot_factory.Domain.Status.Job.{low, developer, completed}
use copilot_factory.Service.Errors.{Result, ok, throw, EntityType, ServiceError}
use copilot_factory.Service.Tables.{TaskRow, PoolRow}
use copilot_factory.Service.JobTable.{JobRow, claim_row, claim_pending}
use copilot_factory.Service.JobTable.Rows.{IsKeyed}
use copilot_factory.Service.Jobs.{
  new_job, set_status, create_job, claim_job, claim_first, dependencies_met, move_job,
  update_status, is_completable,
}
use copilot_factory.Service.Scheduler.{
  SchedulableTask, World, find_ready_by_priority, find_enabled_by_type, count_active,
}
use copilot_factory.Service.Scheduler.Run.{Draw, schedule_next}
use copilot_factory.Service.Scheduler.Progress.{IsFresh}
use copilot_factory.Service.Scheduler.Safety.{HasPoolKeys, IsWithinCapacity}
use copilot_factory.Service.Scheduler.Tick.{
  default_config, TickAssignmentSummary, TickDraw, ProcessTickResult, skipped, tick_data,
  is_non_terminal, run_scheduling_loop, enough, finish_tick, process_tick,
}
use copilot_factory.Service.Scheduler.Tick.Exhausted.{
  Exhausted, IsUnique, run_scheduling_loop-Exhausted,
}
use copilot_factory.Service.Scheduler.Tick.Rows.{live}
use copilot_factory.Service.Scheduler.Tick.Process.{Outcome, process_tick-Outcome}
use copilot_factory.Service.Scheduler.Tick.Runs.{
  initializes, processes, perform_all, IsSound, perform_all-IsSound, process_tick-stuck,
}

abbrev task_row : ℕ → TaskRow
task_row id = record {
  task_id = id;
  status = ready;
  version = 1;
  retry_count = 0;
  current_lease_id = none;
}

abbrev queued : ℕ → SchedulableTask
queued id = record {
  task_id = id;
  repository_id = 1;
  priority = low;
  required_capabilities = [];
  created_at = 10;
}

abbrev pool_row : PoolRow
pool_row = record {
  worker_pool_id = 4;
  pool_type = developer;
  capabilities = [];
  max_concurrency = 2;
  default_timeout_sec = none;
  enabled = true;
}

abbrev world : World
world = record {
  db = record {
    tasks = task_row 7 ∷ task_row 8 ∷ [];
    leases = [];
    pools = pool_row ∷ [];
    audit_events = [];
  };
  queue = queued 7 ∷ queued 8 ∷ [];
  jobs = [];
}

abbrev draws : ℕ → ℕ → Draw
draws n k = record { worker_id = 3; lease_id = n + 50; job_id = n + 60; now = 1000 }

draws-IsUnique : IsUnique draws
draws-IsUnique = record { leases = λ i j k l e. omega arith; jobs = λ i j k l e. omega arith }

world-IsFresh : (k : ℕ) → IsFresh (draws k) world
world-IsFresh k = record { leases = λ q. refl; jobs = λ q. refl }

run_scheduling_loop-Exhausted_example :
    (w' : World) × (s : TickAssignmentSummary) × (run_scheduling_loop draws 50
        (enough world)
        0
        world
      ≡ some (w', ok s))
    × Exhausted 50 world w' s
run_scheduling_loop-Exhausted_example =
    run_scheduling_loop-Exhausted draws 50 world draws-IsUnique world-IsFresh

abbrev tick : JobRow
tick = new_job 9 900 (tick_data none)

abbrev ticking : World
ticking = record world { jobs = tick ∷ [] }

abbrev tick_draw : ℕ → TickDraw
tick_draw next = record {
  claimed_at = 1000;
  draws = draws;
  completed_at = 1001;
  next_from = 1001;
  next_job_id = next;
  created_at = 1001;
}

process_tick-Outcome_example :
    (w' : World) × (r : Result ProcessTickResult) × (process_tick default_config
        (tick_draw 10)
        ticking
      ≡ some (w', r))
    × IsKeyed w'.jobs
    × Outcome default_config (tick_draw 10) ticking w' r
process_tick-Outcome_example = process_tick-Outcome default_config (tick_draw 10) ticking (refl, tt)

world-HasPoolKeys : HasPoolKeys world
world-HasPoolKeys a b m n e = elim (cases_cons m) [
  | inl p ↦ elim (cases_cons n) [ inl q ↦ p ∙ sym q | inr k ↦ absurd (not-nil k) ]
  | inr k ↦ absurd (not-nil k)
]

world-IsWithinCapacity : IsWithinCapacity world
unfolding count_active
world-IsWithinCapacity pool m = omega arith

world-IsSound : IsSound world
world-IsSound = record {
  keyed = tt;
  one = omega arith;
  safe = record { keys = world-HasPoolKeys; within = world-IsWithinCapacity; exclusive = tt };
}

-- Nothing is queued, and the identifier of the next tick is taken.
abbrev quiet : World
quiet = record ticking { queue = [] }

abbrev quiet_after : World
quiet_after = record quiet { jobs = set_status 1001 completed (claim_row 0 1000 tick) ∷ [] }

quiet_one : live quiet ≤ 1
unfolding is_non_terminal
quiet_one = omega arith

tick_refused :
    process_tick default_config (tick_draw 9) quiet
    ≡ some (quiet_after, throw (ServiceError.primary_key_violation EntityType.job 9))
unfolding process_tick claim_job claim_first dependencies_met claim_pending run_scheduling_loop
    schedule_next find_ready_by_priority find_enabled_by_type finish_tick move_job update_status
    is_completable create_job
tick_refused = refl

process_tick-stuck_example :
    process_tick default_config (tick_draw 11) quiet_after ≡ some (quiet_after, ok skipped)
process_tick-stuck_example =
    process_tick-stuck default_config (tick_draw 9) quiet quiet_after
      (ServiceError.primary_key_violation EntityType.job 9) (refl, tt) quiet_one tick_refused
      default_config (tick_draw 11)

perform_all-IsSound_example :
    IsSound (perform_all (initializes 9 900 ∷ processes default_config (tick_draw 10) ∷ []) world)
perform_all-IsSound_example =
    perform_all-IsSound (initializes 9 900 ∷ processes default_config (tick_draw 10) ∷ []) world
      world-IsSound
