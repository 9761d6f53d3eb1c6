-- ===== src/Service/Transition/Others.antt =====
-- The calls of packages/application/src/services/transition.service.ts for leases, review cycles and merge
-- queue items.
use copilot_factory.Prelude.{
  ℕ, true, false, ◌==◌, some, List, [], ◌∷◌, Enum, same_self, find_first, replace_first, ◌≡◌, ◌⊎◌,
  inl, inr, refl, ap, arith, Bool-cases,
}
use copilot_factory.Domain.Status.Lease.{WorkerLeaseStatus}
use copilot_factory.Domain.Status.Review.{ReviewCycleStatus, review_status_enum}
use copilot_factory.Domain.Status.Queue.{MergeQueueItemStatus, queue_status_enum}
use copilot_factory.Domain.Machine.Lease.Guards.{WorkerLeaseTransitionContext}
use copilot_factory.Domain.Machine.Lease.{validate_worker_lease_transition}
use copilot_factory.Domain.Machine.Review.Guards.{ReviewCycleTransitionContext}
use copilot_factory.Domain.Machine.Review.{validate_review_cycle_transition}
use copilot_factory.Domain.Machine.Queue.Guards.{MergeQueueItemTransitionContext}
use copilot_factory.Domain.Machine.Queue.{validate_merge_queue_item_transition}
use copilot_factory.Service.Errors.{ok, throw, ServiceError, EntityType, Status, Version}
use copilot_factory.Service.Tables.{LeaseRow, Tables, has_lease_id, find_lease}
use copilot_factory.Service.Tables.Rows.{update_lease_passes}
use copilot_factory.Service.Transition.{
  Request, TransitionOutcome, set_lease_status, lease_outcome, transition_lease,
}
use copilot_factory.Service.Transition.Cycles.{
  StatusRow, World, has_id, set_status, update_status, cycle_outcome, item_outcome,
  transition_review_cycle, transition_merge_queue_item,
}

module _ {ℓ} {A : Type ℓ} (key : A → ℕ) (id : ℕ) (f : A → A)
    (keeps : (x : A) → key (f x) ≡ key x) where
  -- The key finds the replaced row.
  pub find_first-replace_first :
      (rows : List A) (row : A)
      → find_first (λ x. key x == id) rows ≡ some row
      → find_first (λ x. key x == id) (replace_first (λ x. key x == id) f rows) ≡ some (f row)
  find_first-replace_first [] row h = absurd (cc)
  find_first-replace_first (x ∷ xs) row h = elim (Bool-cases (key x == id)) [
    | inl e ↦ let same_row : x ≡ row = ground arith in ground (arith, keeps x, ap f same_row)
    | inr e ↦ ground (arith, find_first-replace_first xs row (ground arith))
  ]

update_status_passes :
    {S : Type 0} ⦃e : Enum S⦄ (id : ℕ) (target : S) (x : ServiceError) (rows : List (StatusRow S))
    (row : StatusRow S)
    → find_first (has_id id) rows ≡ some row
    → update_status id row.status target x rows
      ≡ ok (replace_first (has_id id) (set_status target) rows, set_status target row)
unfolding update_status
update_status_passes id target x rows row h = rw (h, same_self row.status, update_status) refl

-- What the three calls do with a row that is there: they throw if its state machine refuses the
-- transition, and else leave it in the target status.
module _ (r : Request WorkerLeaseStatus WorkerLeaseTransitionContext) (db : Tables)
    (lease : LeaseRow) (found : find_lease r.id db ≡ some lease) where
  lease_refused :
      (validate_worker_lease_transition lease.status r.target r.context).valid ≡ false
      → transition_lease r db
        ≡ throw (
            ServiceError.invalid_transition EntityType.task_lease r.id
              (Status.of_lease lease.status)
              (Status.of_lease r.target)
              (validate_worker_lease_transition lease.status r.target r.context).reason)
  unfolding transition_lease
  lease_refused v = rw (transition_lease, found, v) refl

  lease_moved :
      (validate_worker_lease_transition lease.status r.target r.context).valid ≡ true
      → (w : Tables × TransitionOutcome LeaseRow) × (transition_lease r db ≡ ok w)
        × (find_lease r.id w.0 ≡ some (set_lease_status r.target lease))
  unfolding transition_lease
  lease_moved v =
      let u = update_lease_passes r.id (set_lease_status r.target) db lease found in
      (
        lease_outcome lease r (
          record db {
            leases = replace_first (has_lease_id r.id) (set_lease_status r.target) db.leases;
          },
          set_lease_status r.target lease,
        ),
        rw (transition_lease, found, v, u) refl,
        find_first-replace_first (λ x. x.lease_id) r.id (set_lease_status r.target) (λ x. refl)
            db.leases lease found,
      )

module _ (r : Request ReviewCycleStatus ReviewCycleTransitionContext) (w : World)
    (cycle : StatusRow ReviewCycleStatus)
    (found : find_first (has_id r.id) w.cycles ≡ some cycle) where
  cycle_refused :
      (validate_review_cycle_transition cycle.status r.target r.context).valid ≡ false
      → transition_review_cycle r w
        ≡ throw (
            ServiceError.invalid_transition EntityType.review_cycle r.id
              (Status.of_review cycle.status)
              (Status.of_review r.target)
              (validate_review_cycle_transition cycle.status r.target r.context).reason)
  unfolding transition_review_cycle
  cycle_refused v = rw (transition_review_cycle, found, v) refl

  cycle_moved :
      (validate_review_cycle_transition cycle.status r.target r.context).valid ≡ true
      → (x : World × TransitionOutcome (StatusRow ReviewCycleStatus)) × (transition_review_cycle r w
          ≡ ok x)
        × (find_first (has_id r.id) x.0.cycles ≡ some (set_status r.target cycle))
  unfolding transition_review_cycle
  cycle_moved v =
      let u =
        update_status_passes r.id r.target
          (ServiceError.version_conflict EntityType.review_cycle r.id
            (Version.status (Status.of_review cycle.status)))
          w.cycles cycle found in
      (
        cycle_outcome cycle r w
            (replace_first (has_id r.id) (set_status r.target) w.cycles, set_status r.target cycle),
        rw (transition_review_cycle, found, v, u) refl,
        find_first-replace_first (λ x. x.id) r.id (set_status r.target) (λ x. refl) w.cycles cycle
            found,
      )

module _ (r : Request MergeQueueItemStatus MergeQueueItemTransitionContext) (w : World)
    (item : StatusRow MergeQueueItemStatus)
    (found : find_first (has_id r.id) w.items ≡ some item) where
  item_refused :
      (validate_merge_queue_item_transition item.status r.target r.context).valid ≡ false
      → transition_merge_queue_item r w
        ≡ throw (
            ServiceError.invalid_transition EntityType.merge_queue_item r.id
              (Status.of_queue item.status)
              (Status.of_queue r.target)
              (validate_merge_queue_item_transition item.status r.target r.context).reason)
  unfolding transition_merge_queue_item
  item_refused v = rw (transition_merge_queue_item, found, v) refl

  item_moved :
      (validate_merge_queue_item_transition item.status r.target r.context).valid ≡ true
      → (x : World × TransitionOutcome (StatusRow MergeQueueItemStatus))
        × (transition_merge_queue_item r w ≡ ok x)
        × (find_first (has_id r.id) x.0.items ≡ some (set_status r.target item))
  unfolding transition_merge_queue_item
  item_moved v =
      let u =
        update_status_passes r.id r.target
          (ServiceError.version_conflict EntityType.merge_queue_item r.id
            (Version.status (Status.of_queue item.status)))
          w.items item found in
      (
        item_outcome item r w
            (replace_first (has_id r.id) (set_status r.target) w.items, set_status r.target item),
        rw (transition_merge_queue_item, found, v, u) refl,
        find_first-replace_first (λ x. x.id) r.id (set_status r.target) (λ x. refl) w.items item
            found,
      )

-- `transitionReviewCycle` throws for a cycle that is there exactly when the state machine refuses the
-- transition on the given evidence, and else leaves the cycle in the target status.
pub transition_review_cycle_cases :
    (r : Request ReviewCycleStatus ReviewCycleTransitionContext) (w : World)
    (cycle : StatusRow ReviewCycleStatus)
    → find_first (has_id r.id) w.cycles ≡ some cycle
    → (((validate_review_cycle_transition cycle.status r.target r.context).valid ≡ false)
        × (transition_review_cycle r w
            ≡ throw (
                ServiceError.invalid_transition EntityType.review_cycle r.id
                  (Status.of_review cycle.status)
                  (Status.of_review r.target)
                  (validate_review_cycle_transition cycle.status r.target r.context).reason)))
      ⊎ (((validate_review_cycle_transition cycle.status r.target r.context).valid ≡ true)
          × ((x : World × TransitionOutcome (StatusRow ReviewCycleStatus))
              × (transition_review_cycle r w ≡ ok x)
              × (find_first (has_id r.id) x.0.cycles ≡ some (set_status r.target cycle))))
transition_review_cycle_cases r w cycle found =
    elim (Bool-cases (validate_review_cycle_transition cycle.status r.target r.context).valid) [
      | inl v ↦ inr (v, cycle_moved r w cycle found v)
      | inr v ↦ inl (v, cycle_refused r w cycle found v)
    ]

-- `transitionMergeQueueItem` likewise.
pub transition_merge_queue_item_cases :
    (r : Request MergeQueueItemStatus MergeQueueItemTransitionContext) (w : World)
    (item : StatusRow MergeQueueItemStatus)
    → find_first (has_id r.id) w.items ≡ some item
    → (((validate_merge_queue_item_transition item.status r.target r.context).valid ≡ false)
        × (transition_merge_queue_item r w
            ≡ throw (
                ServiceError.invalid_transition EntityType.merge_queue_item r.id
                  (Status.of_queue item.status)
                  (Status.of_queue r.target)
                  (validate_merge_queue_item_transition item.status r.target r.context).reason)))
      ⊎ (((validate_merge_queue_item_transition item.status r.target r.context).valid ≡ true)
          × ((x : World × TransitionOutcome (StatusRow MergeQueueItemStatus))
              × (transition_merge_queue_item r w ≡ ok x)
              × (find_first (has_id r.id) x.0.items ≡ some (set_status r.target item))))
transition_merge_queue_item_cases r w item found =
    elim (Bool-cases (validate_merge_queue_item_transition item.status r.target r.context).valid) [
      | inl v ↦ inr (v, item_moved r w item found v)
      | inr v ↦ inl (v, item_refused r w item found v)
    ]
