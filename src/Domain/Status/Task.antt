-- ===== src/Domain/Status/Task.antt =====
-- packages/domain/src/enums.ts, `TaskStatus`.
use copilot_factory.Prelude.{ℕ, ◌≡◌, refl, some, get_elem?, Enum, List, [], ◌∷◌}

-- In the order of `Object.values(TaskStatus)`.
pub data TaskStatus : Type 0 where
  backlog ready blocked assigned in_development dev_complete in_review changes_requested :
      TaskStatus
  approved queued_for_merge merging post_merge_validation done failed escalated cancelled :
      TaskStatus

abbrev pub task_statuses : List TaskStatus
task_statuses =
    backlog ∷ ready ∷ blocked ∷ assigned ∷ in_development ∷ dev_complete ∷ in_review
    ∷ changes_requested ∷ approved ∷ queued_for_merge ∷ merging ∷ post_merge_validation ∷ done
    ∷ failed ∷ escalated ∷ cancelled ∷ []

abbrev pub task_status_index : TaskStatus → ℕ
task_status_index backlog = 0
task_status_index ready = 1
task_status_index blocked = 2
task_status_index assigned = 3
task_status_index in_development = 4
task_status_index dev_complete = 5
task_status_index in_review = 6
task_status_index changes_requested = 7
task_status_index approved = 8
task_status_index queued_for_merge = 9
task_status_index merging = 10
task_status_index post_merge_validation = 11
task_status_index done = 12
task_status_index failed = 13
task_status_index escalated = 14
task_status_index cancelled = 15

pub task_status_at_index : (s : TaskStatus) → get_elem? task_statuses (task_status_index s) ≡ some s
task_status_at_index backlog = refl
task_status_at_index ready = refl
task_status_at_index blocked = refl
task_status_at_index assigned = refl
task_status_at_index in_development = refl
task_status_at_index dev_complete = refl
task_status_at_index in_review = refl
task_status_at_index changes_requested = refl
task_status_at_index approved = refl
task_status_at_index queued_for_merge = refl
task_status_at_index merging = refl
task_status_at_index post_merge_validation = refl
task_status_at_index done = refl
task_status_at_index failed = refl
task_status_at_index escalated = refl
task_status_at_index cancelled = refl

instance abbrev pub task_status_enum : Enum TaskStatus
task_status_enum = record {
  values = task_statuses;
  index = task_status_index;
  value-index = task_status_at_index;
}
