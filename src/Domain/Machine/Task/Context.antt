-- ===== src/Domain/Machine/Task/Context.antt =====
-- packages/domain/src/state-machines/task-state-machine.ts: the evidence that a caller gives.
use copilot_factory.Prelude.{Bool, true, false, Option, none, some}

pub data LeadReviewDecision : Type 0 where
  approved approved_with_follow_up changes_requested escalated : LeadReviewDecision

pub data MergeConflictClassification : Type 0 where
  reworkable non_reworkable : MergeConflictClassification

-- `TransitionContext`: each field may be `undefined`.
pub record TransitionContext : Type 0 where
  pub all_dependencies_resolved : Option Bool
  pub has_policy_blockers : Option Bool
  pub has_blockers : Option Bool
  pub lease_acquired : Option Bool
  pub has_heartbeat : Option Bool
  pub has_dev_result_packet : Option Bool
  pub required_validations_passed : Option Bool
  pub has_review_routing_decision : Option Bool
  pub lead_review_decision : Option LeadReviewDecision
  pub merge_successful : Option Bool
  pub merge_conflict_classification : Option MergeConflictClassification
  pub post_merge_validation_passed : Option Bool
  pub has_unrecoverable_failure : Option Bool
  pub lease_timed_out_no_retry : Option Bool
  pub lease_reclaimed_retry_eligible : Option Bool
  pub is_operator : Option Bool
  pub has_escalation_trigger : Option Bool

-- `{}`, the default of `validateTransition`'s last parameter.
abbrev pub empty_context : TransitionContext
empty_context = record {
  all_dependencies_resolved = none;
  has_policy_blockers = none;
  has_blockers = none;
  lease_acquired = none;
  has_heartbeat = none;
  has_dev_result_packet = none;
  required_validations_passed = none;
  has_review_routing_decision = none;
  lead_review_decision = none;
  merge_successful = none;
  merge_conflict_classification = none;
  post_merge_validation_passed = none;
  has_unrecoverable_failure = none;
  lease_timed_out_no_retry = none;
  lease_reclaimed_retry_eligible = none;
  is_operator = none;
  has_escalation_trigger = none;
}

-- `decision === "approved" || decision === "approved_with_follow_up"`.
abbrev pub is_approval : Option LeadReviewDecision → Bool
is_approval (some approved) = true
is_approval (some approved_with_follow_up) = true
is_approval _ = false

-- `decision === "changes_requested" || decision === "escalated"`.
abbrev pub is_refusal : Option LeadReviewDecision → Bool
is_refusal (some changes_requested) = true
is_refusal (some escalated) = true
is_refusal _ = false

abbrev pub is_reworkable : Option MergeConflictClassification → Bool
is_reworkable (some reworkable) = true
is_reworkable _ = false

abbrev pub is_non_reworkable : Option MergeConflictClassification → Bool
is_non_reworkable (some non_reworkable) = true
is_non_reworkable _ = false
