-- ===== src/Domain/Machine/Queue/Diagram.antt =====
-- packages/domain/src/state-machines/merge-queue-item-state-machine.ts against the merge protocol as
-- a relation, and what a merged item has gone through.
use copilot_factory.Prelude.{
  Bool, true, false, refl, ◌&&◌, List, [], ◌≡◌, ◌↔◌, ◌⊎◌, is_true, arith, some, any, same,
}
use copilot_factory.Domain.Status.Queue.{
  MergeQueueItemStatus, enqueued, preparing, rebasing, validating, merging, merged, requeued,
  failed, queue_status_enum,
}
use copilot_factory.Domain.Machine.Queue.Guards.{MergeQueueItemTransitionContext}
use copilot_factory.Domain.Replay.{replay, needs_evidence}
use copilot_factory.Domain.Guards.{TransitionResult}
use copilot_factory.Domain.Machine.Queue.{
  validate_merge_queue_item_transition, get_valid_merge_queue_item_targets,
  is_terminal_merge_queue_item_state,
}

pub data Row (ctx : MergeQueueItemTransitionContext)
    : MergeQueueItemStatus → MergeQueueItemStatus → Type 0 where
  prepare : is_true ctx.preparation_started ≡ true → Row ctx enqueued preparing
  rebase : is_true ctx.workspace_ready ≡ true → Row ctx preparing rebasing
  check : is_true ctx.rebase_successful ≡ true → Row ctx rebasing validating
  merge : is_true ctx.validation_passed ≡ true → Row ctx validating merging
  finish : is_true ctx.merge_successful ≡ true → Row ctx merging merged
  fail_rebase : is_true ctx.rebase_failed ≡ true → Row ctx rebasing failed
  rework :
      is_true ctx.rebase_failed ≡ true
      → is_true ctx.conflict_reworkable ≡ true
      → Row ctx rebasing requeued
  fail_check : is_true ctx.validation_failed ≡ true → Row ctx validating failed
  retry_check :
      is_true ctx.validation_failed ≡ true
      → is_true ctx.failure_transient ≡ true
      → Row ctx validating requeued
  preempt : is_true ctx.preempted ≡ true → Row ctx validating requeued
  fail_merge : is_true ctx.merge_failed ≡ true → Row ctx merging failed
  retry_merge :
      is_true ctx.merge_failed ≡ true
      → is_true ctx.failure_transient ≡ true
      → Row ctx merging requeued
  enqueue : Row ctx requeued enqueued

ruleset rows = (
  prepare, rebase, check, merge, finish, fail_rebase, rework, fail_check, retry_check, preempt,
  fail_merge, retry_merge, enqueue,
)

sound :
    (c t : MergeQueueItemStatus) (ctx : MergeQueueItemTransitionContext)
    → (validate_merge_queue_item_transition c t ctx).valid ≡ true
    → Row ctx c t
unfolding validate_merge_queue_item_transition
sound enqueued enqueued ctx h = grind (arith, rows)
sound _ _ ctx h = grind (arith, rows)

complete :
    (c t : MergeQueueItemStatus) (ctx : MergeQueueItemTransitionContext)
    → Row ctx c t
    → (validate_merge_queue_item_transition c t ctx).valid ≡ true
unfolding validate_merge_queue_item_transition
complete c t ctx (prepare a) = ground arith
complete c t ctx (rebase a) = ground arith
complete c t ctx (check a) = ground arith
complete c t ctx (merge a) = ground arith
complete c t ctx (finish a) = ground arith
complete c t ctx (fail_rebase a) = ground arith
complete c t ctx (rework a b) = ground arith
complete c t ctx (fail_check a) = ground arith
complete c t ctx (retry_check a b) = ground arith
complete c t ctx (preempt a) = ground arith
complete c t ctx (fail_merge a) = ground arith
complete c t ctx (retry_merge a b) = ground arith
complete c t ctx enqueue = ground arith

-- `validateMergeQueueItemTransition` accepts a change of status, for given evidence, exactly when
-- the relation `Row` holds.
pub validate_merge_queue_item_transition-Row :
    (current target : MergeQueueItemStatus) (context : MergeQueueItemTransitionContext)
    → ((validate_merge_queue_item_transition current target context).valid ≡ true)
      ↔ Row context current target
validate_merge_queue_item_transition-Row current target context =
    (sound current target context, complete current target context)

abbrev pub Request : Type 0
Request = MergeQueueItemStatus × MergeQueueItemTransitionContext

abbrev pub rebases : Request → Bool
rebases r = same r.0 validating && is_true r.1.rebase_successful

abbrev pub passes : Request → Bool
passes r = same r.0 merging && is_true r.1.validation_passed

abbrev pub merges : Request → Bool
merges r = same r.0 merged && is_true r.1.merge_successful

abbrev is_rebased : MergeQueueItemStatus → Bool
is_rebased validating = true
is_rebased merging = true
is_rebased merged = true
is_rebased _ = false

abbrev is_checked : MergeQueueItemStatus → Bool
is_checked merging = true
is_checked merged = true
is_checked _ = false

rebase_step :
    (c t : MergeQueueItemStatus) (ctx : MergeQueueItemTransitionContext)
    → (validate_merge_queue_item_transition c t ctx).valid ≡ true
    → is_rebased t ≡ true
    → (is_rebased c ≡ true) ⊎ (rebases (t, ctx) ≡ true)
unfolding validate_merge_queue_item_transition
rebase_step enqueued enqueued ctx h k = cc
rebase_step _ _ ctx h k = ground arith

check_step :
    (c t : MergeQueueItemStatus) (ctx : MergeQueueItemTransitionContext)
    → (validate_merge_queue_item_transition c t ctx).valid ≡ true
    → is_checked t ≡ true
    → (is_checked c ≡ true) ⊎ (passes (t, ctx) ≡ true)
unfolding validate_merge_queue_item_transition
check_step enqueued enqueued ctx h k = cc
check_step _ _ ctx h k = ground arith

merge_step :
    (c t : MergeQueueItemStatus) (ctx : MergeQueueItemTransitionContext)
    → (validate_merge_queue_item_transition c t ctx).valid ≡ true
    → same t merged ≡ true
    → (same c merged ≡ true) ⊎ (merges (t, ctx) ≡ true)
unfolding validate_merge_queue_item_transition
merge_step enqueued enqueued ctx h k = cc
merge_step _ _ ctx h k = ground arith

-- An item that begins in ENQUEUED and is MERGED has in its life a successful rebase, a passed
-- validation and a successful merge.
pub merged_needs_evidence :
    (log : List Request)
    → replay validate_merge_queue_item_transition enqueued log ≡ some merged
    → (any rebases log ≡ true) × (any passes log ≡ true) × (any merges log ≡ true)
merged_needs_evidence log h = (
  ground (arith, needs_evidence validate is_rebased rebases rebase_step enqueued merged log h refl),
  ground (arith, needs_evidence validate is_checked passes check_step enqueued merged log h refl),
  ground (
    arith,
    needs_evidence validate (λ s. same s merged) merges merge_step enqueued merged log h refl,
  ),
)
  where
    validate :
        MergeQueueItemStatus
        → MergeQueueItemStatus
        → MergeQueueItemTransitionContext
        → TransitionResult
    validate = validate_merge_queue_item_transition

-- A merge queue item status is terminal exactly when `getValidMergeQueueItemTargets` lists nothing
-- for it.
pub is_terminal_merge_queue_item_state_iff :
    (s : MergeQueueItemStatus)
    → (is_terminal_merge_queue_item_state s ≡ true) ↔ (get_valid_merge_queue_item_targets s ≡ [])
unfolding is_terminal_merge_queue_item_state get_valid_merge_queue_item_targets
is_terminal_merge_queue_item_state_iff enqueued = ground arith
is_terminal_merge_queue_item_state_iff _ = ground arith
