-- ===== src/Domain/Machine/Task/History.antt =====
-- What packages/domain/src/state-machines/task-state-machine.ts gives over a whole life of a task.
use copilot_factory.Prelude.{
  Bool, true, false, ◌&&◌, ◌||◌, any, ◌≡◌, refl, ◌≢◌, ◌⊎◌, inl, inr, some, List, [], ◌∷◌, same,
  arith, is_true,
}
use copilot_factory.Domain.Status.Task.{
  TaskStatus, backlog, ready, blocked, assigned, in_development, dev_complete, in_review,
  changes_requested, approved, queued_for_merge, merging, post_merge_validation, done, failed,
  escalated, cancelled, task_status_enum,
}
use copilot_factory.Domain.Machine.Task.Context.{TransitionContext, empty_context, is_approval}
use copilot_factory.Domain.Machine.Task.Context.{LeadReviewDecision}
use copilot_factory.Domain.Replay.{replay, replay-cons, needs_evidence}
use copilot_factory.Domain.Machine.Task.{validate_transition, is_terminal_state}

abbrev pub Request : Type 0
Request = TaskStatus × TransitionContext

-- No evidence moves a task out of DONE, FAILED or CANCELLED.
pub terminal_absorbs :
    (current target : TaskStatus) (context : TransitionContext)
    → is_terminal_state current ≡ true
    → (validate_transition current target context).valid ≡ false
unfolding validate_transition is_terminal_state
terminal_absorbs backlog backlog ctx h = cc
terminal_absorbs _ _ ctx h = ground arith

abbrev pub is_approved_stage : TaskStatus → Bool
is_approved_stage approved = true
is_approved_stage queued_for_merge = true
is_approved_stage merging = true
is_approved_stage post_merge_validation = true
is_approved_stage _ = false

abbrev pub approves : Request → Bool
approves r = same r.0 approved && is_approval r.1.lead_review_decision

abbrev pub verifies : Request → Bool
verifies r = same r.0 done && is_true r.1.post_merge_validation_passed

abbrev pub closes : Request → Bool
closes r = same r.0 done && is_true r.1.is_operator

approval_step :
    (c t : TaskStatus) (ctx : TransitionContext)
    → (validate_transition c t ctx).valid ≡ true
    → is_approved_stage t ≡ true
    → (is_approved_stage c ≡ true) ⊎ (approves (t, ctx) ≡ true)
unfolding validate_transition
approval_step backlog backlog ctx h k = cc
approval_step _ _ ctx h k = ground arith

done_step :
    (c t : TaskStatus) (ctx : TransitionContext)
    → (validate_transition c t ctx).valid ≡ true
    → t ≡ done
    → ((is_approved_stage c && verifies (t, ctx)) ≡ true) ⊎ (closes (t, ctx) ≡ true)
unfolding validate_transition
done_step backlog backlog ctx h e = cc
done_step _ _ ctx h e = ground arith

-- A task that begins in BACKLOG and reaches APPROVED, QUEUED_FOR_MERGE, MERGING or
-- POST_MERGE_VALIDATION has been moved to APPROVED with an approving decision of the lead reviewer.
pub merge_needs_approval :
    (log : List Request) (t : TaskStatus)
    → replay validate_transition backlog log ≡ some t
    → is_approved_stage t ≡ true
    → any approves log ≡ true
merge_needs_approval log t h k = ground (
  arith,
  needs_evidence validate_transition is_approved_stage approves approval_step backlog t log h k,
)

done_needs_from :
    (s : TaskStatus) (log : List Request)
    → replay validate_transition s log ≡ some done
    → (s ≡ done)
      ⊎ (((is_approved_stage s || any approves log) && any verifies log ≡ true)
          ⊎ (any closes log ≡ true))
unfolding replay
done_needs_from s [] h = inl (ground arith)
done_needs_from s (r ∷ log) h =
    let (v, later) = replay-cons validate_transition s r log done h in
    elim (done_needs_from r.0 log later) [
      | inl e ↦ ground (arith, done_step s r.0 r.1 v e)
      | inr (inl p) ↦ ground (arith, approval_step s r.0 r.1)
      | inr (inr q) ↦ inr (inr (ground arith))
    ]

-- A task that begins in BACKLOG and ends in DONE was approved by the lead reviewer and passed the
-- post-merge validation, or an operator closed it.
pub done_needs_evidence :
    (log : List Request)
    → replay validate_transition backlog log ≡ some done
    → ((any approves log ≡ true) × (any verifies log ≡ true)) ⊎ (any closes log ≡ true)
done_needs_evidence log h = ground (arith, done_needs_from backlog log h)

abbrev with_lease : TransitionContext
with_lease = record empty_context {
  lease_acquired = some true;
  has_heartbeat = some true;
  is_operator = some true;
}

-- One request for each stage that is left between `s` and DONE.
abbrev from_merging : List Request
from_merging =
    (post_merge_validation, record empty_context { merge_successful = some true })
    ∷ (done, record empty_context { post_merge_validation_passed = some true })
    ∷ []

abbrev from_approved : List Request
from_approved = (queued_for_merge, empty_context) ∷ (merging, empty_context) ∷ from_merging

abbrev from_in_review : List Request
from_in_review =
    (approved, record empty_context { lead_review_decision = some LeadReviewDecision.approved })
    ∷ from_approved

abbrev from_dev_complete : List Request
from_dev_complete =
    (in_review, record empty_context { has_review_routing_decision = some true }) ∷ from_in_review

abbrev developed : TransitionContext
developed = record empty_context {
  has_dev_result_packet = some true;
  required_validations_passed = some true;
}

abbrev from_in_development : List Request
from_in_development = (dev_complete, developed) ∷ from_dev_complete

abbrev from_assigned : List Request
from_assigned = (in_development, with_lease) ∷ from_in_development

abbrev from_ready : List Request
from_ready = (assigned, with_lease) ∷ from_assigned

abbrev from_backlog : List Request
from_backlog = (ready, record empty_context { all_dependencies_resolved = some true }) ∷ from_ready

abbrev pub way_to_done : TaskStatus → List Request
way_to_done backlog = from_backlog
way_to_done blocked = from_backlog
way_to_done ready = from_ready
way_to_done changes_requested = from_ready
way_to_done escalated = from_ready
way_to_done assigned = from_assigned
way_to_done in_development = from_in_development
way_to_done dev_complete = from_dev_complete
way_to_done in_review = from_in_review
way_to_done approved = from_approved
way_to_done queued_for_merge = (merging, empty_context) ∷ from_merging
way_to_done merging = from_merging
way_to_done post_merge_validation =
    (done, record empty_context { post_merge_validation_passed = some true }) ∷ []
way_to_done _ = []

-- No status is a dead end: from every one but FAILED and CANCELLED some accepted requests lead to
-- DONE.
pub done_reachable :
    (s : TaskStatus)
    → s ≢ failed
    → s ≢ cancelled
    → (log : List Request) × (replay validate_transition s log ≡ some done)
unfolding replay validate_transition
done_reachable failed f c = absurd (f refl)
done_reachable cancelled f c = absurd (c refl)
done_reachable s f c = (way_to_done s, refl)
