-- ===== src/Service/Scheduler/Tick.antt =====
-- packages/application/src/services/scheduler-tick.service.ts, with the adapter
-- `createSchedulerTickUnitOfWork` of apps/control-plane/src/automation/application-adapters.ts.
pub mod Counts
pub mod Loop
pub mod Exhausted
pub mod Rows
pub mod Process
pub mod Safe
pub mod Runs
use copilot_factory.Prelude.{
  ℕ, zero, suc, ◌+◌, Bool, true, false, ◌&&◌, Option, none, some, List, [], ◌∷◌, any, length, same,
  ltb, filterb,
}
use copilot_factory.Domain.Status.Task.{ready, task_status_enum}
use copilot_factory.Domain.Status.Job.{
  JobType, JobStatus, scheduler_tick, pending, claimed, running, job_type_enum, job_status_enum,
}
use copilot_factory.Service.Errors.{Result, ok, throw}
use copilot_factory.Service.Tables.{TaskRow}
use copilot_factory.Service.JobTable.{JobRow}
use copilot_factory.Service.Jobs.{CreateJobData, create_job, claim_job, complete_job}
use copilot_factory.Service.Scheduler.{World}
use copilot_factory.Service.Scheduler.Run.{
  Draw, ScheduleSkipReason, ScheduleResult, not_assigned, assigned, schedule_next,
}

-- The interval is in seconds; an owner stands for its text, 0 for "scheduler-tick".
pub record SchedulerTickConfig : Type 0 where
  pub tick_interval : ℕ
  pub candidate_limit : ℕ
  pub lease_owner : ℕ

abbrev pub default_config : SchedulerTickConfig
default_config = record { tick_interval = 5; candidate_limit = 50; lease_owner = 0 }

pub data InitializeTickResult : Type 0 where
  already_there : InitializeTickResult
  created : ℕ → InitializeTickResult

pub record TickAssignmentSummary : Type 0 where
  pub assignment_count : ℕ
  pub stop_reason : ScheduleSkipReason

pub data ProcessTickResult : Type 0 where
  skipped : ProcessTickResult
  processed : ℕ → TickAssignmentSummary → ℕ → ProcessTickResult

-- `JOB_NON_TERMINAL_STATUSES`.
unfoldable pub is_non_terminal : JobStatus → Bool
is_non_terminal status = any (same status) (pending ∷ claimed ∷ running ∷ [])

abbrev pub is_live : JobType → JobRow → Bool
is_live job_type job = same job.job_type job_type && is_non_terminal job.status

abbrev pub count_non_terminal_by_type : JobType → List JobRow → ℕ
count_non_terminal_by_type job_type jobs = length (filterb (is_live job_type) jobs)

-- The test of the loop: `rest` is what the loop goes on with.
abbrev pub next_call :
    ℕ
    → (World → Option (World × Result TickAssignmentSummary))
    → World × Result ScheduleResult
    → Option (World × Result TickAssignmentSummary)
next_call count rest (w, throw e) = some (w, throw e)
next_call count rest (w, ok (not_assigned reason n)) =
    some (w, ok (record { assignment_count = count; stop_reason = reason }))
next_call count rest (w, ok (assigned a)) = rest w

-- `draws n` is what the `n`-th call of `scheduleNext` draws.
unfoldable pub run_scheduling_loop :
    (ℕ → ℕ → Draw) → ℕ → ℕ → ℕ → World → Option (World × Result TickAssignmentSummary)
run_scheduling_loop draws limit zero count w = none
run_scheduling_loop draws limit (suc fuel) count w =
    next_call count (λ w'. run_scheduling_loop draws limit fuel (count + 1) w')
      (schedule_next (draws count) limit w)

abbrev pub is_ready_row : TaskRow → Bool
is_ready_row row = same row.status ready

-- One call for each READY task and a last one that assigns none.
abbrev pub enough : World → ℕ
enough w = suc (length (filterb is_ready_row w.db.tasks))

abbrev pub tick_data : Option ℕ → CreateJobData
tick_data run_after = record {
  job_type = scheduler_tick;
  entity_type = none;
  entity_id = none;
  payload_json = none;
  run_after = run_after;
  parent_job_id = none;
  job_group_id = none;
  depends_on_job_ids = none;
}

-- `createJob`, and what the caller makes of the identifier of the new job.
abbrev pub add_tick {ℓ} : {A : Type ℓ} → ℕ → ℕ → Option ℕ → (ℕ → A) → World → World × Result A
add_tick job_id now run_after f w = elim (create_job job_id now (tick_data run_after) w.jobs) [
  | throw e ↦ (w, throw e)
  | ok (jobs, job) ↦ (record w { jobs = jobs }, ok (f job.job_id))
]

unfoldable pub initialize : ℕ → ℕ → World → World × Result InitializeTickResult
initialize job_id now w = elim (ltb 0 (count_non_terminal_by_type scheduler_tick w.jobs)) [
  | true ↦ (w, ok already_there)
  | false ↦ add_tick job_id now none created w
]

-- What the clock and the generator give during a call of `processTick`.
pub record TickDraw : Type 0 where
  pub claimed_at : ℕ
  pub draws : ℕ → ℕ → Draw
  pub completed_at : ℕ
  pub next_from : ℕ
  pub next_job_id : ℕ
  pub created_at : ℕ

-- From the third step on.
unfoldable pub finish_tick :
    SchedulerTickConfig
    → TickDraw
    → ℕ
    → TickAssignmentSummary
    → World
    → World × Result ProcessTickResult
finish_tick config draw tick_job_id summary w =
    elim (complete_job draw.completed_at tick_job_id w.jobs) [
      | throw e ↦ (w, throw e)
      | ok (jobs, job) ↦
          add_tick draw.next_job_id draw.created_at (some (draw.next_from + config.tick_interval))
            (processed tick_job_id summary) (record w { jobs = jobs })
    ]

abbrev pub after_loop :
    SchedulerTickConfig
    → TickDraw
    → ℕ
    → World × Result TickAssignmentSummary
    → World × Result ProcessTickResult
after_loop config draw tick_job_id (w, throw e) = (w, throw e)
after_loop config draw tick_job_id (w, ok summary) = finish_tick config draw tick_job_id summary w

unfoldable pub process_tick :
    SchedulerTickConfig → TickDraw → World → Option (World × Result ProcessTickResult)
process_tick config draw w =
    elim (claim_job scheduler_tick config.lease_owner draw.claimed_at w.jobs) [
      | none ↦ some (w, ok skipped)
      | some (jobs, job) ↦
          elim (run_scheduling_loop draw.draws config.candidate_limit (enough w) 0
            (record w { jobs = jobs })) [
              | none ↦ none
              | some r ↦ some (after_loop config draw job.job_id r)
            ]
    ]
