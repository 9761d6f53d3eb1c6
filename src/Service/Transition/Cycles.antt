-- ===== src/Service/Transition/Cycles.antt =====
-- `transitionReviewCycle` and `transitionMergeQueueItem` of
-- packages/application/src/services/transition.service.ts.
use Prim.Native.String.{◌++◌}
use copilot_factory.Prelude.{
  ℕ, Bool, not, ◌==◌, none, some, List, same, Enum, find_first, replace_first,
}
use copilot_factory.Domain.Status.Lease.{lease_status_enum}
use copilot_factory.Domain.Status.Review.{ReviewCycleStatus, review_status_enum}
use copilot_factory.Domain.Status.Queue.{MergeQueueItemStatus, queue_status_enum}
use copilot_factory.Domain.Status.Text.{review_status_text, queue_status_text}
use copilot_factory.Domain.Machine.Review.Guards.{ReviewCycleTransitionContext}
use copilot_factory.Domain.Machine.Review.{validate_review_cycle_transition}
use copilot_factory.Domain.Machine.Queue.Guards.{MergeQueueItemTransitionContext}
use copilot_factory.Domain.Machine.Queue.{validate_merge_queue_item_transition}
use copilot_factory.Service.Errors.{
  Result, ok, throw, ◌>>=◌, ◌>>◌, or_throw, unless_throw, if_throw, EntityType, ServiceError,
  Status, Version,
}
use copilot_factory.Service.Tables.{AuditEvent, AuditState, DomainEvent, Tables, record_audit}
use copilot_factory.Service.Transition.{Request, TransitionOutcome, audit_of}

-- A row of the tables of review cycles and of merge queue items, as the ports show it.
pub record StatusRow (S : Type 0) : Type 0 where
  pub id : ℕ
  pub status : S

pub record World : Type 0 where
  pub db : Tables
  pub cycles : List (StatusRow ReviewCycleStatus)
  pub items : List (StatusRow MergeQueueItemStatus)

module _ {S : Type 0} ⦃e : Enum S⦄ where
  abbrev pub has_id : ℕ → StatusRow S → Bool
  has_id id row = row.id == id

  abbrev pub set_status : S → StatusRow S → StatusRow S
  set_status status row = record row { status = status }

  -- `updateStatus` of the ports of review cycles and merge queue items.
  unfoldable pub update_status :
      ℕ → S → S → ServiceError → List (StatusRow S) → Result (List (StatusRow S) × StatusRow S)
  update_status id expected status conflict rows = elim (find_first (has_id id) rows) [
    | none ↦ throw conflict
    | some current ↦
        if_throw (not (same current.status expected)) conflict
        >> ok (replace_first (has_id id) (set_status status) rows, set_status status current)
  ]

abbrev pub cycle_audit :
    StatusRow ReviewCycleStatus
    → Request ReviewCycleStatus ReviewCycleTransitionContext
    → AuditEvent
cycle_audit cycle r =
    audit_of EntityType.review_cycle
      ("review-cycle.transition."
        ++ review_status_text cycle.status
        ++ ".to."
        ++ review_status_text r.target)
      (AuditState.status_only (Status.of_review cycle.status))
      (AuditState.status_only (Status.of_review r.target)) r

abbrev pub cycle_outcome :
    StatusRow ReviewCycleStatus
    → Request ReviewCycleStatus ReviewCycleTransitionContext
    → World
    → List (StatusRow ReviewCycleStatus) × StatusRow ReviewCycleStatus
    → World × TransitionOutcome (StatusRow ReviewCycleStatus)
cycle_outcome cycle r w updated = (
  record w { db = record_audit (cycle_audit cycle r) w.db; cycles = updated.0 },
  record {
    entity = updated.1;
    audit_event = cycle_audit cycle r;
    event = DomainEvent.review_cycle_transitioned r.id r.actor cycle.status r.target;
  },
)

unfoldable pub transition_review_cycle :
    Request ReviewCycleStatus ReviewCycleTransitionContext
    → World
    → Result (World × TransitionOutcome (StatusRow ReviewCycleStatus))
transition_review_cycle r w = do
  cycle ←
      or_throw (find_first (has_id r.id) w.cycles)
        (ServiceError.entity_not_found EntityType.review_cycle r.id)
  let validation = validate_review_cycle_transition cycle.status r.target r.context
  unless_throw validation.valid (
      ServiceError.invalid_transition EntityType.review_cycle r.id (Status.of_review cycle.status)
        (Status.of_review r.target) validation.reason)
  updated ←
      update_status r.id cycle.status r.target
        (ServiceError.version_conflict EntityType.review_cycle r.id
          (Version.status (Status.of_review cycle.status)))
        w.cycles
  ok (cycle_outcome cycle r w updated)

abbrev pub item_audit :
    StatusRow MergeQueueItemStatus
    → Request MergeQueueItemStatus MergeQueueItemTransitionContext
    → AuditEvent
item_audit item r =
    audit_of EntityType.merge_queue_item
      ("merge-queue-item.transition."
        ++ queue_status_text item.status
        ++ ".to."
        ++ queue_status_text r.target)
      (AuditState.status_only (Status.of_queue item.status))
      (AuditState.status_only (Status.of_queue r.target)) r

abbrev pub item_outcome :
    StatusRow MergeQueueItemStatus
    → Request MergeQueueItemStatus MergeQueueItemTransitionContext
    → World
    → List (StatusRow MergeQueueItemStatus) × StatusRow MergeQueueItemStatus
    → World × TransitionOutcome (StatusRow MergeQueueItemStatus)
item_outcome item r w updated = (
  record w { db = record_audit (item_audit item r) w.db; items = updated.0 },
  record {
    entity = updated.1;
    audit_event = item_audit item r;
    event = DomainEvent.merge_queue_item_transitioned r.id r.actor item.status r.target;
  },
)

unfoldable pub transition_merge_queue_item :
    Request MergeQueueItemStatus MergeQueueItemTransitionContext
    → World
    → Result (World × TransitionOutcome (StatusRow MergeQueueItemStatus))
transition_merge_queue_item r w = do
  item ←
      or_throw (find_first (has_id r.id) w.items)
        (ServiceError.entity_not_found EntityType.merge_queue_item r.id)
  let validation = validate_merge_queue_item_transition item.status r.target r.context
  unless_throw validation.valid (
      ServiceError.invalid_transition EntityType.merge_queue_item r.id (Status.of_queue item.status)
        (Status.of_queue r.target) validation.reason)
  updated ←
      update_status r.id item.status r.target
        (ServiceError.version_conflict EntityType.merge_queue_item r.id
          (Version.status (Status.of_queue item.status)))
        w.items
  ok (item_outcome item r w updated)
