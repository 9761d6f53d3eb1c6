-- ===== src/Domain/Machine/Task/Diagram.antt =====
-- packages/domain/src/state-machines/task-state-machine.ts against its transition table as a
-- relation.
use copilot_factory.Prelude.{true, false, ◌≡◌, ◌↔◌, ◌||◌, is_true, is_false, arith}
use copilot_factory.Domain.Status.Task.{
  TaskStatus, backlog, ready, blocked, assigned, in_development, dev_complete, in_review,
  changes_requested, approved, queued_for_merge, merging, post_merge_validation, done, failed,
  escalated, cancelled,
}
use copilot_factory.Domain.Machine.Task.Context.{
  TransitionContext, is_approval, is_refusal, is_reworkable, is_non_reworkable,
}
use copilot_factory.Domain.Machine.Task.{validate_transition}

-- The states that `*` stands for in the two wildcard rows.
pub data IsOpen : TaskStatus → Type 0 where
  open_backlog : IsOpen backlog
  open_ready : IsOpen ready
  open_blocked : IsOpen blocked
  open_assigned : IsOpen assigned
  open_in_development : IsOpen in_development
  open_dev_complete : IsOpen dev_complete
  open_in_review : IsOpen in_review
  open_changes_requested : IsOpen changes_requested
  open_approved : IsOpen approved
  open_queued_for_merge : IsOpen queued_for_merge
  open_merging : IsOpen merging
  open_post_merge_validation : IsOpen post_merge_validation

-- A row of the table, with the evidence that its last column asks for.
pub data Row (ctx : TransitionContext) : TaskStatus → TaskStatus → Type 0 where
  resolve :
      is_true ctx.all_dependencies_resolved ≡ true
      → is_true ctx.has_policy_blockers ≡ false
      → Row ctx backlog ready
  block_dependency : is_true ctx.has_blockers ≡ true → Row ctx backlog blocked
  block_policy : is_true ctx.has_policy_blockers ≡ true → Row ctx backlog blocked
  unblock :
      is_true ctx.all_dependencies_resolved ≡ true
      → is_true ctx.has_policy_blockers ≡ false
      → Row ctx blocked ready
  lease : is_true ctx.lease_acquired ≡ true → Row ctx ready assigned
  start : is_true ctx.has_heartbeat ≡ true → Row ctx assigned in_development
  unassign : is_true ctx.lease_reclaimed_retry_eligible ≡ true → Row ctx assigned ready
  drop : is_true ctx.lease_timed_out_no_retry ≡ true → Row ctx assigned failed
  submit :
      is_true ctx.has_dev_result_packet ≡ true
      → is_true ctx.required_validations_passed ≡ true
      → Row ctx in_development dev_complete
  break : is_true ctx.has_unrecoverable_failure ≡ true → Row ctx in_development failed
  time_out : is_true ctx.lease_timed_out_no_retry ≡ true → Row ctx in_development failed
  retry : is_true ctx.lease_reclaimed_retry_eligible ≡ true → Row ctx in_development ready
  route : is_true ctx.has_review_routing_decision ≡ true → Row ctx dev_complete in_review
  refuse : is_refusal ctx.lead_review_decision ≡ true → Row ctx in_review changes_requested
  approve : is_approval ctx.lead_review_decision ≡ true → Row ctx in_review approved
  rework : is_true ctx.lease_acquired ≡ true → Row ctx changes_requested assigned
  enqueue : Row ctx approved queued_for_merge
  dequeue : Row ctx queued_for_merge merging
  merge : is_true ctx.merge_successful ≡ true → Row ctx merging post_merge_validation
  conflict :
      is_reworkable ctx.merge_conflict_classification ≡ true → Row ctx merging changes_requested
  abandon : is_non_reworkable ctx.merge_conflict_classification ≡ true → Row ctx merging failed
  finish : is_true ctx.post_merge_validation_passed ≡ true → Row ctx post_merge_validation done
  regress : is_false ctx.post_merge_validation_passed ≡ true → Row ctx post_merge_validation failed
  escalate_operator :
      {s : TaskStatus} → IsOpen s → is_true ctx.is_operator ≡ true → Row ctx s escalated
  escalate_trigger :
      {s : TaskStatus} → IsOpen s → is_true ctx.has_escalation_trigger ≡ true → Row ctx s escalated
  cancel : {s : TaskStatus} → IsOpen s → is_true ctx.is_operator ≡ true → Row ctx s cancelled
  reassign :
      is_true ctx.is_operator ≡ true
      → is_true ctx.lease_acquired ≡ true
      → Row ctx escalated assigned
  give_up : is_true ctx.is_operator ≡ true → Row ctx escalated cancelled
  close : is_true ctx.is_operator ≡ true → Row ctx escalated done

ruleset open_states = (
  open_backlog, open_ready, open_blocked, open_assigned, open_in_development, open_dev_complete,
  open_in_review, open_changes_requested, open_approved, open_queued_for_merge, open_merging,
  open_post_merge_validation,
)

ruleset rows = (
  resolve, block_dependency, block_policy, unblock, lease, start, unassign, drop, submit, break,
  time_out, retry, route, refuse, approve, rework, enqueue, dequeue, merge, conflict, abandon,
  finish, regress, escalate_operator, escalate_trigger, cancel, reassign, give_up, close,
  open_states,
)

sound :
    (c t : TaskStatus) (ctx : TransitionContext)
    → (validate_transition c t ctx).valid ≡ true
    → Row ctx c t
unfolding validate_transition
sound backlog backlog ctx h = grind (arith, rows)
sound _ _ ctx h = grind (arith, rows)

open-escalated :
    {c : TaskStatus} (ctx : TransitionContext)
    → IsOpen c
    → (is_true ctx.is_operator || is_true ctx.has_escalation_trigger) ≡ true
    → (validate_transition c escalated ctx).valid ≡ true
unfolding validate_transition
open-escalated ctx open_backlog h = ground arith
open-escalated ctx open_ready h = ground arith
open-escalated ctx open_blocked h = ground arith
open-escalated ctx open_assigned h = ground arith
open-escalated ctx open_in_development h = ground arith
open-escalated ctx open_dev_complete h = ground arith
open-escalated ctx open_in_review h = ground arith
open-escalated ctx open_changes_requested h = ground arith
open-escalated ctx open_approved h = ground arith
open-escalated ctx open_queued_for_merge h = ground arith
open-escalated ctx open_merging h = ground arith
open-escalated ctx open_post_merge_validation h = ground arith

open-cancelled :
    {c : TaskStatus} (ctx : TransitionContext)
    → IsOpen c
    → is_true ctx.is_operator ≡ true
    → (validate_transition c cancelled ctx).valid ≡ true
unfolding validate_transition
open-cancelled ctx open_backlog h = ground arith
open-cancelled ctx open_ready h = ground arith
open-cancelled ctx open_blocked h = ground arith
open-cancelled ctx open_assigned h = ground arith
open-cancelled ctx open_in_development h = ground arith
open-cancelled ctx open_dev_complete h = ground arith
open-cancelled ctx open_in_review h = ground arith
open-cancelled ctx open_changes_requested h = ground arith
open-cancelled ctx open_approved h = ground arith
open-cancelled ctx open_queued_for_merge h = ground arith
open-cancelled ctx open_merging h = ground arith
open-cancelled ctx open_post_merge_validation h = ground arith

complete :
    (c t : TaskStatus) (ctx : TransitionContext)
    → Row ctx c t
    → (validate_transition c t ctx).valid ≡ true
unfolding validate_transition
complete c t ctx (resolve a b) = ground arith
complete c t ctx (block_dependency a) = ground arith
complete c t ctx (block_policy a) = ground arith
complete c t ctx (unblock a b) = ground arith
complete c t ctx (lease a) = ground arith
complete c t ctx (start a) = ground arith
complete c t ctx (unassign a) = ground arith
complete c t ctx (drop a) = ground arith
complete c t ctx (submit a b) = ground arith
complete c t ctx (break a) = ground arith
complete c t ctx (time_out a) = ground arith
complete c t ctx (retry a) = ground arith
complete c t ctx (route a) = ground arith
complete c t ctx (refuse a) = ground arith
complete c t ctx (approve a) = ground arith
complete c t ctx (rework a) = ground arith
complete c t ctx enqueue = ground arith
complete c t ctx dequeue = ground arith
complete c t ctx (merge a) = ground arith
complete c t ctx (conflict a) = ground arith
complete c t ctx (abandon a) = ground arith
complete c t ctx (finish a) = ground arith
complete c t ctx (regress a) = ground arith
complete c t ctx (escalate_operator o a) = open-escalated ctx o (ground arith)
complete c t ctx (escalate_trigger o a) = open-escalated ctx o (ground arith)
complete c t ctx (cancel o a) = open-cancelled ctx o a
complete c t ctx (reassign a b) = ground arith
complete c t ctx (give_up a) = ground arith
complete c t ctx (close a) = ground arith

-- `validateTransition` accepts a change of status, for given evidence, exactly when the relation
-- `Row` holds.
pub validate_transition-Row :
    (current target : TaskStatus) (context : TransitionContext)
    → ((validate_transition current target context).valid ≡ true) ↔ Row context current target
validate_transition-Row current target context =
    (sound current target context, complete current target context)
