-- ===== src/Scenarios/Records.antt =====
-- Runs of the machines of leases, review cycles and merge queue items.
use copilot_factory.Prelude.{true, ◌≡◌, refl, ◌↔◌, some, List, [], ◌∷◌}
use copilot_factory.Domain.Status.Lease.{idle, leased, starting, running, crashed}
use copilot_factory.Domain.Status.Review.{not_started, routed, in_progress, consolidating}
use copilot_factory.Domain.Status.Queue.{enqueued, preparing, rebasing, validating, merging, merged}
use copilot_factory.Domain.Replay.{replay}
use copilot_factory.Domain.Machine.Lease.{validate_worker_lease_transition}
use copilot_factory.Domain.Machine.Review.{validate_review_cycle_transition}
use copilot_factory.Domain.Machine.Queue.{validate_merge_queue_item_transition}
use copilot_factory.Domain.Machine.Lease.Guards as LeaseGuards
use copilot_factory.Domain.Machine.Lease.Diagram as LeaseDiagram
use copilot_factory.Domain.Machine.Lease.Life as LeaseLife
use copilot_factory.Domain.Machine.Review.Guards as ReviewGuards
use copilot_factory.Domain.Machine.Review.Diagram as ReviewDiagram
use copilot_factory.Domain.Machine.Queue.Guards as QueueGuards
use copilot_factory.Domain.Machine.Queue.Diagram as QueueDiagram

abbrev lease_evidence : LeaseGuards.WorkerLeaseTransitionContext
lease_evidence = record LeaseGuards.empty_context {
  lease_acquired = some true;
  worker_process_spawned = some true;
  first_heartbeat_received = some true;
  heartbeat_received = some true;
  worker_crashed = some true;
}

abbrev crash : List LeaseLife.Request
crash =
    (leased, lease_evidence)
    ∷ (starting, lease_evidence)
    ∷ (running, lease_evidence)
    ∷ (crashed, lease_evidence)
    ∷ []

crash_accepted : replay validate_worker_lease_transition idle crash ≡ some crashed
unfolding replay validate_worker_lease_transition
crash_accepted = refl

validate_worker_lease_transition-Row_example :
    ((validate_worker_lease_transition running crashed lease_evidence).valid ≡ true)
    ↔ LeaseDiagram.Row lease_evidence running crashed
validate_worker_lease_transition-Row_example =
    LeaseDiagram.validate_worker_lease_transition-Row running crashed lease_evidence

abbrev review_evidence : ReviewGuards.ReviewCycleTransitionContext
review_evidence = record ReviewGuards.empty_context {
  routing_decision_emitted = some true;
  review_started = some true;
  all_required_reviews_complete = some true;
}

abbrev cycle : List ReviewDiagram.Request
cycle =
    (routed, review_evidence)
    ∷ (in_progress, review_evidence)
    ∷ (consolidating, review_evidence)
    ∷ []

cycle_accepted : replay validate_review_cycle_transition not_started cycle ≡ some consolidating
unfolding replay validate_review_cycle_transition
cycle_accepted = refl

validate_review_cycle_transition-Row_example :
    ((validate_review_cycle_transition routed in_progress review_evidence).valid ≡ true)
    ↔ ReviewDiagram.Row review_evidence routed in_progress
validate_review_cycle_transition-Row_example =
    ReviewDiagram.validate_review_cycle_transition-Row routed in_progress review_evidence

abbrev queue_evidence : QueueGuards.MergeQueueItemTransitionContext
queue_evidence = record QueueGuards.empty_context {
  preparation_started = some true;
  workspace_ready = some true;
  rebase_successful = some true;
  validation_passed = some true;
  merge_successful = some true;
}

abbrev merge : List QueueDiagram.Request
merge =
    (preparing, queue_evidence)
    ∷ (rebasing, queue_evidence)
    ∷ (validating, queue_evidence)
    ∷ (merging, queue_evidence)
    ∷ (merged, queue_evidence)
    ∷ []

merge_accepted : replay validate_merge_queue_item_transition enqueued merge ≡ some merged
unfolding replay validate_merge_queue_item_transition
merge_accepted = refl

validate_merge_queue_item_transition-Row_example :
    ((validate_merge_queue_item_transition merging merged queue_evidence).valid ≡ true)
    ↔ QueueDiagram.Row queue_evidence merging merged
validate_merge_queue_item_transition-Row_example =
    QueueDiagram.validate_merge_queue_item_transition-Row merging merged queue_evidence
