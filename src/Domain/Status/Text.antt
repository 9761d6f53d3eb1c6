-- ===== src/Domain/Status/Text.antt =====
-- packages/domain/src/enums.ts: the text of the statuses, which the messages quote.
use copilot_factory.Prelude.{String}
use copilot_factory.Domain.Status.Task.{TaskStatus}
use copilot_factory.Domain.Status.Lease.{WorkerLeaseStatus}
use copilot_factory.Domain.Status.Review.{ReviewCycleStatus}
use copilot_factory.Domain.Status.Queue.{MergeQueueItemStatus}

unfoldable pub task_status_text : TaskStatus → String
task_status_text TaskStatus.backlog = "BACKLOG"
task_status_text TaskStatus.ready = "READY"
task_status_text TaskStatus.blocked = "BLOCKED"
task_status_text TaskStatus.assigned = "ASSIGNED"
task_status_text TaskStatus.in_development = "IN_DEVELOPMENT"
task_status_text TaskStatus.dev_complete = "DEV_COMPLETE"
task_status_text TaskStatus.in_review = "IN_REVIEW"
task_status_text TaskStatus.changes_requested = "CHANGES_REQUESTED"
task_status_text TaskStatus.approved = "APPROVED"
task_status_text TaskStatus.queued_for_merge = "QUEUED_FOR_MERGE"
task_status_text TaskStatus.merging = "MERGING"
task_status_text TaskStatus.post_merge_validation = "POST_MERGE_VALIDATION"
task_status_text TaskStatus.done = "DONE"
task_status_text TaskStatus.failed = "FAILED"
task_status_text TaskStatus.escalated = "ESCALATED"
task_status_text TaskStatus.cancelled = "CANCELLED"

unfoldable pub lease_status_text : WorkerLeaseStatus → String
lease_status_text WorkerLeaseStatus.idle = "IDLE"
lease_status_text WorkerLeaseStatus.leased = "LEASED"
lease_status_text WorkerLeaseStatus.starting = "STARTING"
lease_status_text WorkerLeaseStatus.running = "RUNNING"
lease_status_text WorkerLeaseStatus.heartbeating = "HEARTBEATING"
lease_status_text WorkerLeaseStatus.completing = "COMPLETING"
lease_status_text WorkerLeaseStatus.timed_out = "TIMED_OUT"
lease_status_text WorkerLeaseStatus.crashed = "CRASHED"
lease_status_text WorkerLeaseStatus.reclaimed = "RECLAIMED"

unfoldable pub review_status_text : ReviewCycleStatus → String
review_status_text ReviewCycleStatus.not_started = "NOT_STARTED"
review_status_text ReviewCycleStatus.routed = "ROUTED"
review_status_text ReviewCycleStatus.in_progress = "IN_PROGRESS"
review_status_text ReviewCycleStatus.awaiting_required_reviews = "AWAITING_REQUIRED_REVIEWS"
review_status_text ReviewCycleStatus.consolidating = "CONSOLIDATING"
review_status_text ReviewCycleStatus.approved = "APPROVED"
review_status_text ReviewCycleStatus.rejected = "REJECTED"
review_status_text ReviewCycleStatus.escalated = "ESCALATED"

unfoldable pub queue_status_text : MergeQueueItemStatus → String
queue_status_text MergeQueueItemStatus.enqueued = "ENQUEUED"
queue_status_text MergeQueueItemStatus.preparing = "PREPARING"
queue_status_text MergeQueueItemStatus.rebasing = "REBASING"
queue_status_text MergeQueueItemStatus.validating = "VALIDATING"
queue_status_text MergeQueueItemStatus.merging = "MERGING"
queue_status_text MergeQueueItemStatus.merged = "MERGED"
queue_status_text MergeQueueItemStatus.requeued = "REQUEUED"
queue_status_text MergeQueueItemStatus.failed = "FAILED"
