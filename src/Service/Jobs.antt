-- ===== src/Service/Jobs.antt =====
-- packages/application/src/services/job-queue.service.ts over the table of jobs, with the adapter
-- `createJobQueueUnitOfWork` of apps/control-plane/src/automation/application-adapters.ts.
pub mod Eligible
pub mod Claim
pub mod Dependencies
pub mod Life
use Prim.Native.String.{◌++◌}
use copilot_factory.Prelude.{
  ℕ, ◌+◌, Bool, true, false, not, ◌&&◌, Option, none, some, String, List, [], ◌∷◌, any, all, push,
  same, leb, ◌==◌, filterb, find_first, replace_first, sort_by, cons_if, map,
}
use copilot_factory.Domain.Status.Job.{
  JobType, JobStatus, TaskPriority, pending, claimed, running, completed, failed, cancelled,
  job_type_enum, job_status_enum, job_status_text,
}
use copilot_factory.Service.JobTable.{
  StoredItem, StoredIds, Payload, JobRow, has_job_id, find_job, parse_depends_on_job_ids, store_ids,
  claim_pending,
}
use copilot_factory.Service.Errors.{
  Result, ok, throw, ◌>>=◌, ◌>>◌, or_throw, unless_throw, if_throw, EntityType, ServiceError,
  Status,
}

-- Optional fields that are `undefined` or `null` become `null`.
pub record CreateJobData : Type 0 where
  pub job_type : JobType
  pub entity_type : Option EntityType
  pub entity_id : Option ℕ
  pub payload_json : Option Payload
  pub run_after : Option ℕ
  pub parent_job_id : Option ℕ
  pub job_group_id : Option ℕ
  pub depends_on_job_ids : Option (List ℕ)

-- `COMPLETABLE_STATUSES` and `FAILABLE_STATUSES`, then `RUNNABLE_STATUSES` and `TERMINAL_STATUSES`.
unfoldable pub is_completable : JobStatus → Bool
is_completable status = any (same status) (claimed ∷ running ∷ [])

unfoldable pub is_failable : JobStatus → Bool
is_failable status = any (same status) (claimed ∷ running ∷ [])

unfoldable pub is_runnable : JobStatus → Bool
is_runnable status = any (same status) (claimed ∷ [])

unfoldable pub is_terminal : JobStatus → Bool
is_terminal status = any (same status) (completed ∷ failed ∷ [])

-- `JOB_DEPENDENCY_TERMINAL_STATUSES` of the adapter.
unfoldable pub is_dependency_terminal : JobStatus → Bool
is_dependency_terminal status = any (same status) (completed ∷ failed ∷ [])

abbrev pub new_job : ℕ → ℕ → CreateJobData → JobRow
new_job job_id now data' = record {
  job_id = job_id;
  job_type = data'.job_type;
  entity_type = data'.entity_type;
  entity_id = data'.entity_id;
  payload_json = data'.payload_json;
  status = pending;
  attempt_count = 0;
  run_after = data'.run_after;
  lease_owner = none;
  parent_job_id = data'.parent_job_id;
  job_group_id = data'.job_group_id;
  depends_on_job_ids = store_ids data'.depends_on_job_ids;
  created_at = now;
  updated_at = now;
}

-- `job_id` is what the generator gives, `now` the time.
unfoldable pub create_job : ℕ → ℕ → CreateJobData → List JobRow → Result (List JobRow × JobRow)
create_job job_id now data' jobs = do
  if_throw (any (has_job_id job_id) jobs) (ServiceError.primary_key_violation EntityType.job job_id)
  ok (push jobs (new_job job_id now data'), new_job job_id now data')

abbrev pub is_due : ℕ → Option ℕ → Bool
is_due now none = true
is_due now (some run_after) = leb run_after now

abbrev pub is_candidate : JobType → ℕ → JobRow → Bool
is_candidate job_type now row =
    same row.status pending && (same row.job_type job_type && is_due now row.run_after)

-- `left.createdAt.getTime() - right.createdAt.getTime() <= 0`.
abbrev pub is_not_younger : JobRow → JobRow → Bool
is_not_younger left right = leb left.created_at right.created_at

-- The candidates of `claimNextByType`, oldest first.
abbrev pub candidates : JobType → ℕ → List JobRow → List JobRow
candidates job_type now jobs = sort_by is_not_younger (filterb (is_candidate job_type now) jobs)

abbrev pub is_settled : Option JobRow → Bool
is_settled none = false
is_settled (some dependency) = is_dependency_terminal dependency.status

unfoldable pub dependencies_met : List JobRow → JobRow → Bool
dependencies_met jobs row =
    all (λ id. is_settled (find_job id jobs)) (parse_depends_on_job_ids row.depends_on_job_ids)

-- The loop over the candidates.
unfoldable pub claim_first : ℕ → ℕ → List JobRow → List JobRow → Option (List JobRow × JobRow)
claim_first owner now [] jobs = none
claim_first owner now (row ∷ rows) jobs = elim (dependencies_met jobs row) [
  | false ↦ claim_first owner now rows jobs
  | true ↦ elim (claim_pending row.job_id owner now jobs) [
    | none ↦ claim_first owner now rows jobs
    | some claim ↦ some claim
  ]
]

unfoldable pub claim_job : JobType → ℕ → ℕ → List JobRow → Option (List JobRow × JobRow)
claim_job job_type owner now jobs = claim_first owner now (candidates job_type now jobs) jobs

abbrev pub set_status : ℕ → JobStatus → JobRow → JobRow
set_status now status row = record row { status = status; updated_at = now }

-- `updateStatus` of the adapter.
unfoldable pub update_status :
    ℕ → ℕ → JobStatus → JobStatus → List JobRow → Option (List JobRow × JobRow)
update_status now id expected status jobs = elim (find_job id jobs) [
  | none ↦ none
  | some row ↦ elim (same row.status expected) [
    | false ↦ none
    | true ↦
        some (replace_first (has_job_id id) (set_status now status) jobs, set_status now status row)
  ]
]

-- The body that `startJob`, `completeJob` and `failJob` share.
unfoldable pub move_job :
    (JobStatus → Bool)
    → JobStatus
    → String
    → String
    → ℕ
    → ℕ
    → List JobRow
    → Result (List JobRow × JobRow)
move_job allowed target refused concurrent now id jobs = do
  existing ← or_throw (find_job id jobs) (ServiceError.entity_not_found EntityType.job id)
  unless_throw (allowed existing.status) (
      ServiceError.invalid_transition EntityType.job id (Status.of_job existing.status)
        (Status.of_job target) (some (refused ++ ", but is " ++ job_status_text existing.status)))
  or_throw (update_status now id existing.status target jobs) (
      ServiceError.invalid_transition EntityType.job id (Status.of_job existing.status)
        (Status.of_job target) (some concurrent))

abbrev pub start_job : ℕ → ℕ → List JobRow → Result (List JobRow × JobRow)
start_job =
    move_job is_runnable running "Job must be in CLAIMED status to start running"
      "Concurrent status change detected during start transition"

abbrev pub complete_job : ℕ → ℕ → List JobRow → Result (List JobRow × JobRow)
complete_job =
    move_job is_completable completed "Job must be in CLAIMED or RUNNING status to complete"
      "Concurrent status change detected during complete transition"

abbrev pub fail_job : ℕ → ℕ → List JobRow → Result (List JobRow × JobRow)
fail_job =
    move_job is_failable failed "Job must be in CLAIMED or RUNNING status to fail"
      "Concurrent status change detected during fail transition"

abbrev pub is_in_group : ℕ → Option ℕ → Bool
is_in_group id none = false
is_in_group id (some group) = group == id

unfoldable pub find_jobs_by_group : ℕ → List JobRow → List JobRow
find_jobs_by_group id = filterb (λ row. is_in_group id row.job_group_id)
