-- ===== src/Domain/Status/Queue.antt =====
-- packages/domain/src/enums.ts, `MergeQueueItemStatus`.
use copilot_factory.Prelude.{ℕ, ◌≡◌, refl, some, get_elem?, Enum, List, [], ◌∷◌}

-- In the order of `Object.values(MergeQueueItemStatus)`.
pub data MergeQueueItemStatus : Type 0 where
  enqueued preparing rebasing validating merging merged requeued failed : MergeQueueItemStatus

abbrev pub queue_statuses : List MergeQueueItemStatus
queue_statuses =
    enqueued ∷ preparing ∷ rebasing ∷ validating ∷ merging ∷ merged ∷ requeued ∷ failed ∷ []

abbrev pub queue_status_index : MergeQueueItemStatus → ℕ
queue_status_index enqueued = 0
queue_status_index preparing = 1
queue_status_index rebasing = 2
queue_status_index validating = 3
queue_status_index merging = 4
queue_status_index merged = 5
queue_status_index requeued = 6
queue_status_index failed = 7

pub queue_status_at_index :
    (s : MergeQueueItemStatus) → get_elem? queue_statuses (queue_status_index s) ≡ some s
queue_status_at_index enqueued = refl
queue_status_at_index preparing = refl
queue_status_at_index rebasing = refl
queue_status_at_index validating = refl
queue_status_at_index merging = refl
queue_status_at_index merged = refl
queue_status_at_index requeued = refl
queue_status_at_index failed = refl

instance abbrev pub queue_status_enum : Enum MergeQueueItemStatus
queue_status_enum = record {
  values = queue_statuses;
  index = queue_status_index;
  value-index = queue_status_at_index;
}
