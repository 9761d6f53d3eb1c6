-- ===== src/Scenarios/Jobs.antt =====
-- Runs of the job queue of packages/application/src/services/job-queue.service.ts.
use copilot_factory.Prelude.{ℕ, ◌≡◌, ◌≢◌, ◌⊎◌, ◌↔◌, refl, none, some, List, [], ◌∷◌, filterb, Memᴰ}
use copilot_factory.Domain.Status.Job.{JobType, JobStatus, pending, completed, failed}
use copilot_factory.Service.Errors.{ok}
use copilot_factory.Service.JobTable.{
  StoredItem, StoredIds, JobRow, find_job, claim_row, claim_pending,
}
use copilot_factory.Service.JobTable.Rows.{IsKeyed}
use copilot_factory.Service.Jobs.{
  CreateJobData, is_completable, is_runnable, is_failable, is_dependency_terminal, dependencies_met,
  claim_first, claim_job, create_job, move_job, update_status,
}
use copilot_factory.Service.Jobs.Eligible.{Eligible, is_completed}
use copilot_factory.Service.Jobs.Claim.{Claimed, claim_job-Claimed, claim_job-none_iff}
use copilot_factory.Service.Jobs.Dependencies.{
  are_job_dependencies_met, are_job_dependencies_met-dependencies_met, is_unsettled, is_missing,
}
use copilot_factory.Service.Jobs.Life.{view, Steps}
use copilot_factory.Service.Jobs.Life.Calls.{
  JobCall, create, claim, start, complete, fail, perform_all, perform_all-Steps,
  perform_all-IsOneAttempt, perform_all-ended,
}

abbrev job : ℕ → JobStatus → StoredIds → ℕ → JobRow
job id status depends created = record {
  job_id = id;
  job_type = JobType.merge_dispatch;
  entity_type = none;
  entity_id = none;
  payload_json = none;
  status = status;
  attempt_count = 0;
  run_after = none;
  lease_owner = none;
  parent_job_id = none;
  job_group_id = none;
  depends_on_job_ids = depends;
  created_at = created;
  updated_at = created;
}

-- The oldest job still waits for a job that has not ended; the next one depends on one that has.
abbrev blocked_job : JobRow
blocked_job = job 1 pending (StoredIds.array (StoredItem.text 2 ∷ [])) 10

abbrev free_job : JobRow
free_job = job 2 pending (StoredIds.array (StoredItem.text 3 ∷ StoredItem.other ∷ [])) 20

abbrev ended_job : JobRow
ended_job = job 3 completed StoredIds.null 5

abbrev jobs : List JobRow
jobs = blocked_job ∷ free_job ∷ ended_job ∷ []

abbrev jobs_claimed : List JobRow
jobs_claimed = blocked_job ∷ claim_row 77 100 free_job ∷ ended_job ∷ []

jobs-IsKeyed : IsKeyed jobs
jobs-IsKeyed = (refl, (refl, (refl, tt)))

second_claimed :
    claim_job JobType.merge_dispatch 77 100 jobs ≡ some (jobs_claimed, claim_row 77 100 free_job)
unfolding claim_job claim_first dependencies_met is_dependency_terminal claim_pending
second_claimed = refl

claim_job-Claimed_example :
    Claimed JobType.merge_dispatch 77 100 jobs jobs_claimed (claim_row 77 100 free_job)
claim_job-Claimed_example =
    claim_job-Claimed JobType.merge_dispatch 77 100 jobs jobs_claimed (claim_row 77 100 free_job)
      jobs-IsKeyed second_claimed

claim_job-none_iff_example :
    (claim_job JobType.cleanup 77 100 jobs ≡ none)
    ↔ ((row : JobRow) → Memᴰ row jobs → ¬ Eligible JobType.cleanup 100 jobs row)
claim_job-none_iff_example = claim_job-none_iff JobType.cleanup 77 100 jobs jobs-IsKeyed

are_job_dependencies_met-dependencies_met_example :
    are_job_dependencies_met 1 jobs
    ≡ ok (record {
      met = dependencies_met jobs blocked_job;
      pending_dependency_ids = filterb (λ d. is_unsettled (find_job d jobs)) (2 ∷ []);
      missing_dependency_ids = filterb (λ d. is_missing (find_job d jobs)) (2 ∷ []);
    })
are_job_dependencies_met-dependencies_met_example =
    are_job_dependencies_met-dependencies_met 1 jobs blocked_job refl

abbrev wanted : CreateJobData
wanted = record {
  job_type = JobType.cleanup;
  entity_type = none;
  entity_id = none;
  payload_json = none;
  run_after = none;
  parent_job_id = none;
  job_group_id = none;
  depends_on_job_ids = none;
}

abbrev life : List JobCall
life =
    create 4 100 wanted
    ∷ complete 101 4
    ∷ claim JobType.cleanup 77 102
    ∷ claim JobType.cleanup 78 103
    ∷ start 104 4
    ∷ fail 105 4
    ∷ start 106 4
    ∷ []

perform_all-Steps_example :
    IsKeyed (perform_all life jobs) × Steps (view jobs) (view (perform_all life jobs))
perform_all-Steps_example = perform_all-Steps life jobs jobs-IsKeyed

abbrev last_job : JobRow
last_job = record free_job {
  job_id = 4;
  job_type = JobType.cleanup;
  status = failed;
  attempt_count = 1;
  lease_owner = some 77;
  depends_on_job_ids = StoredIds.null;
  created_at = 100;
  updated_at = 105;
}

life_ends : find_job 4 (perform_all life []) ≡ some last_job
unfolding create_job claim_job claim_first dependencies_met is_dependency_terminal claim_pending
    move_job update_status is_runnable is_completable is_failable
life_ends = refl

perform_all-IsOneAttempt_example :
    ((last_job.status ≡ pending) × (last_job.attempt_count ≡ 0))
    ⊎ ((last_job.status ≢ pending) × (last_job.attempt_count ≡ 1))
perform_all-IsOneAttempt_example = perform_all-IsOneAttempt life 4 last_job life_ends

perform_all-ended_example :
    (later : JobRow) × (find_job 3 (perform_all life jobs) ≡ some later)
    × (later.status ≡ completed)
perform_all-ended_example = perform_all-ended life jobs 3 ended_job jobs-IsKeyed refl is_completed
