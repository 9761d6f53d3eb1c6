-- ===== src/Domain/Status/Job.antt =====
-- packages/domain/src/enums.ts, `JobType`, `JobStatus`, `TaskPriority` and `WorkerPoolType`.
use copilot_factory.Prelude.{String, ℕ, ◌≡◌, refl, some, get_elem?, Enum, List, [], ◌∷◌}

-- In the order of `Object.values(JobType)`.
pub data JobType : Type 0 where
  scheduler_tick worker_dispatch reviewer_dispatch lead_review_consolidation merge_dispatch
        validation_execution reconciliation_sweep cleanup :
      JobType

abbrev pub job_types : List JobType
job_types =
    scheduler_tick ∷ worker_dispatch ∷ reviewer_dispatch ∷ lead_review_consolidation
    ∷ merge_dispatch ∷ validation_execution ∷ reconciliation_sweep ∷ cleanup ∷ []

abbrev pub job_type_index : JobType → ℕ
job_type_index scheduler_tick = 0
job_type_index worker_dispatch = 1
job_type_index reviewer_dispatch = 2
job_type_index lead_review_consolidation = 3
job_type_index merge_dispatch = 4
job_type_index validation_execution = 5
job_type_index reconciliation_sweep = 6
job_type_index cleanup = 7

pub job_type_at_index : (s : JobType) → get_elem? job_types (job_type_index s) ≡ some s
job_type_at_index scheduler_tick = refl
job_type_at_index worker_dispatch = refl
job_type_at_index reviewer_dispatch = refl
job_type_at_index lead_review_consolidation = refl
job_type_at_index merge_dispatch = refl
job_type_at_index validation_execution = refl
job_type_at_index reconciliation_sweep = refl
job_type_at_index cleanup = refl

instance abbrev pub job_type_enum : Enum JobType
job_type_enum = record {
  values = job_types;
  index = job_type_index;
  value-index = job_type_at_index;
}

-- In the order of `Object.values(JobStatus)`.
pub data JobStatus : Type 0 where
  pending claimed running completed failed cancelled : JobStatus

abbrev pub job_statuses : List JobStatus
job_statuses = pending ∷ claimed ∷ running ∷ completed ∷ failed ∷ cancelled ∷ []

abbrev pub job_status_index : JobStatus → ℕ
job_status_index pending = 0
job_status_index claimed = 1
job_status_index running = 2
job_status_index completed = 3
job_status_index failed = 4
job_status_index cancelled = 5

pub job_status_at_index : (s : JobStatus) → get_elem? job_statuses (job_status_index s) ≡ some s
job_status_at_index pending = refl
job_status_at_index claimed = refl
job_status_at_index running = refl
job_status_at_index completed = refl
job_status_at_index failed = refl
job_status_at_index cancelled = refl

instance abbrev pub job_status_enum : Enum JobStatus
job_status_enum = record {
  values = job_statuses;
  index = job_status_index;
  value-index = job_status_at_index;
}

-- In the order of `Object.values(TaskPriority)`.
pub data TaskPriority : Type 0 where
  critical high medium low : TaskPriority

abbrev pub task_priorities : List TaskPriority
task_priorities = critical ∷ high ∷ medium ∷ low ∷ []

abbrev pub task_priority_index : TaskPriority → ℕ
task_priority_index critical = 0
task_priority_index high = 1
task_priority_index medium = 2
task_priority_index low = 3

pub task_priority_at_index :
    (s : TaskPriority) → get_elem? task_priorities (task_priority_index s) ≡ some s
task_priority_at_index critical = refl
task_priority_at_index high = refl
task_priority_at_index medium = refl
task_priority_at_index low = refl

instance abbrev pub task_priority_enum : Enum TaskPriority
task_priority_enum = record {
  values = task_priorities;
  index = task_priority_index;
  value-index = task_priority_at_index;
}

-- In the order of `Object.values(WorkerPoolType)`.
pub data WorkerPoolType : Type 0 where
  developer reviewer lead_reviewer merge_assist planner : WorkerPoolType

abbrev pub pool_types : List WorkerPoolType
pool_types = developer ∷ reviewer ∷ lead_reviewer ∷ merge_assist ∷ planner ∷ []

abbrev pub pool_type_index : WorkerPoolType → ℕ
pool_type_index developer = 0
pool_type_index reviewer = 1
pool_type_index lead_reviewer = 2
pool_type_index merge_assist = 3
pool_type_index planner = 4

pub pool_type_at_index : (s : WorkerPoolType) → get_elem? pool_types (pool_type_index s) ≡ some s
pool_type_at_index developer = refl
pool_type_at_index reviewer = refl
pool_type_at_index lead_reviewer = refl
pool_type_at_index merge_assist = refl
pool_type_at_index planner = refl

instance abbrev pub pool_type_enum : Enum WorkerPoolType
pool_type_enum = record {
  values = pool_types;
  index = pool_type_index;
  value-index = pool_type_at_index;
}

unfoldable pub job_status_text : JobStatus → String
job_status_text pending = "pending"
job_status_text claimed = "claimed"
job_status_text running = "running"
job_status_text completed = "completed"
job_status_text failed = "failed"
job_status_text cancelled = "cancelled"

unfoldable pub task_priority_text : TaskPriority → String
task_priority_text critical = "critical"
task_priority_text high = "high"
task_priority_text medium = "medium"
task_priority_text low = "low"

unfoldable pub pool_type_text : WorkerPoolType → String
pool_type_text developer = "developer"
pool_type_text reviewer = "reviewer"
pool_type_text lead_reviewer = "lead-reviewer"
pool_type_text merge_assist = "merge-assist"
pool_type_text planner = "planner"
