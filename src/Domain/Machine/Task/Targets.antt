-- ===== src/Domain/Machine/Task/Targets.antt =====
-- packages/domain/src/state-machines/task-state-machine.ts: `getValidTargets` and
-- `getAllValidTransitions` against `validateTransition`.
use copilot_factory.Prelude.{
  true, ◌&&◌, any, ◌≡◌, refl, ◌↔◌, some, same, arith, none, if◌then◌else◌,
}
use copilot_factory.Domain.Status.Task.{
  TaskStatus, backlog, approved, done, failed, task_status_enum,
}
use copilot_factory.Domain.Machine.Task.Context.{
  TransitionContext, LeadReviewDecision, MergeConflictClassification,
}
use copilot_factory.Domain.Machine.Task.{
  validate_transition, get_valid_targets, get_all_valid_transitions, includes,
}

-- Evidence that meets the guard of every transition to `target`.
abbrev evidence_for : TaskStatus → TransitionContext
evidence_for target = record {
  all_dependencies_resolved = some true;
  has_policy_blockers = none;
  has_blockers = some true;
  lease_acquired = some true;
  has_heartbeat = some true;
  has_dev_result_packet = some true;
  required_validations_passed = some true;
  has_review_routing_decision = some true;
  lead_review_decision = some (
      if same target approved
      then LeadReviewDecision.approved
      else LeadReviewDecision.changes_requested);
  merge_successful = some true;
  merge_conflict_classification = some (
      if same target failed
      then MergeConflictClassification.non_reworkable
      else MergeConflictClassification.reworkable);
  post_merge_validation_passed = some (same target done);
  has_unrecoverable_failure = some true;
  lease_timed_out_no_retry = some true;
  lease_reclaimed_retry_eligible = some true;
  is_operator = some true;
  has_escalation_trigger = some true;
}

listed-valid :
    (c t : TaskStatus)
    → includes (get_valid_targets c) t ≡ true
    → (validate_transition c t (evidence_for t)).valid ≡ true
unfolding validate_transition get_valid_targets
listed-valid backlog backlog h = cc
listed-valid _ _ h = ground arith

valid-listed :
    (c t : TaskStatus) (ctx : TransitionContext)
    → (validate_transition c t ctx).valid ≡ true
    → includes (get_valid_targets c) t ≡ true
unfolding validate_transition get_valid_targets
valid-listed backlog backlog ctx h = cc
valid-listed _ _ ctx h = ground arith

-- `getValidTargets(current)` lists a status exactly when some evidence makes the transition to it
-- valid.
pub get_valid_targets-validate_transition :
    (current target : TaskStatus)
    → (includes (get_valid_targets current) target ≡ true)
      ↔ ((ctx : TransitionContext) × ((validate_transition current target ctx).valid ≡ true))
get_valid_targets-validate_transition current target = (
  λ h. (evidence_for target, listed-valid current target h),
  λ p. valid-listed current target p.0 p.1,
)

-- `getAllValidTransitions()` holds the pair (current, target) exactly when `getValidTargets(current)`
-- lists the target.
pub get_all_valid_transitions-get_valid_targets :
    (current target : TaskStatus)
    → any (λ edge. same current edge.0 && same target edge.1) get_all_valid_transitions
      ≡ includes (get_valid_targets current) target
unfolding get_all_valid_transitions get_valid_targets
get_all_valid_transitions-get_valid_targets backlog backlog = refl
get_all_valid_transitions-get_valid_targets _ _ = refl
