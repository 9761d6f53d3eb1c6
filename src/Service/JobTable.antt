-- ===== src/Service/JobTable.antt =====
-- The table of jobs: the columns of apps/control-plane/src/infrastructure/database/schema.ts, and the
-- queries of infrastructure/repositories/job.repository.ts. Columns of time hold seconds.
pub mod Rows
use copilot_factory.Prelude.{
  ℕ, ◌+◌, Bool, true, false, ◌&&◌, Option, none, some, String, List, [], ◌∷◌, same, ◌==◌,
  find_first, replace_first, map,
}
use copilot_factory.Domain.Status.Job.{
  JobType, JobStatus, TaskPriority, pending, claimed, job_status_enum,
}
use copilot_factory.Service.Errors.{EntityType}

-- An item of the array of JSON that the column `depends_on_job_ids` stores.
pub data StoredItem : Type 0 where
  text : ℕ → StoredItem
  other : StoredItem

-- What the column holds: nothing, some JSON that is not an array, or an array.
pub data StoredIds : Type 0 where
  null not_array : StoredIds
  array : List StoredItem → StoredIds

-- The payloads: the one that the scheduler writes, and any other as its text.
pub data Payload : Type 0 where
  worker_dispatch : (task lease pool worker : ℕ) → TaskPriority → List String → Payload
  json : String → Payload

pub record JobRow : Type 0 where
  pub job_id : ℕ
  pub job_type : JobType
  pub entity_type : Option EntityType
  pub entity_id : Option ℕ
  pub payload_json : Option Payload
  pub status : JobStatus
  pub attempt_count : ℕ
  pub run_after : Option ℕ
  pub lease_owner : Option ℕ
  pub parent_job_id : Option ℕ
  pub job_group_id : Option ℕ
  pub depends_on_job_ids : StoredIds
  pub created_at : ℕ
  pub updated_at : ℕ

abbrev pub has_job_id : ℕ → JobRow → Bool
has_job_id id row = row.job_id == id

abbrev pub find_job : ℕ → List JobRow → Option JobRow
find_job id = find_first (has_job_id id)

abbrev pub texts : List StoredItem → List ℕ
texts [] = []
texts (StoredItem.text id ∷ items) = id ∷ texts items
texts (StoredItem.other ∷ items) = texts items

-- `parseDependsOnJobIds`, and `toStringArray` of the adapter.
abbrev pub parse_depends_on_job_ids : StoredIds → List ℕ
parse_depends_on_job_ids (StoredIds.array items) = texts items
parse_depends_on_job_ids _ = []

abbrev pub store_ids : Option (List ℕ) → StoredIds
store_ids none = StoredIds.null
store_ids (some ids) = StoredIds.array (map StoredItem.text ids)

-- `UPDATE … WHERE job_id = ? AND status = 'pending'`.
abbrev pub is_pending_job : ℕ → JobRow → Bool
is_pending_job id row = row.job_id == id && same row.status pending

abbrev pub claim_row : ℕ → ℕ → JobRow → JobRow
claim_row owner now row = record row {
  status = claimed;
  lease_owner = some owner;
  attempt_count = row.attempt_count + 1;
  updated_at = now;
}

unfoldable pub claim_pending : ℕ → ℕ → ℕ → List JobRow → Option (List JobRow × JobRow)
claim_pending id owner now jobs = elim (find_first (is_pending_job id) jobs) [
  | none ↦ none
  | some row ↦
      some (replace_first (is_pending_job id) (claim_row owner now) jobs, claim_row owner now row)
]
