-- ===== src/Domain/Machine/Review/Guards.antt =====
-- packages/domain/src/state-machines/review-cycle-state-machine.ts: the evidence that a caller gives, and one guard
-- for each transition.
use copilot_factory.Prelude.{Bool, true, false, Option, none, some, is_true, ◌||◌}
use copilot_factory.Domain.Guards.{TransitionResult, valid_transition, require}

pub data LeadReviewDecision : Type 0 where
  approved approved_with_follow_up rejected escalated : LeadReviewDecision

abbrev pub is_approval : Option LeadReviewDecision → Bool
is_approval (some approved) = true
is_approval (some approved_with_follow_up) = true
is_approval _ = false

abbrev pub is_rejection : Option LeadReviewDecision → Bool
is_rejection (some rejected) = true
is_rejection _ = false

abbrev pub is_escalation : Option LeadReviewDecision → Bool
is_escalation (some escalated) = true
is_escalation _ = false

-- Each field may be `undefined`.
pub record ReviewCycleTransitionContext : Type 0 where
  pub routing_decision_emitted : Option Bool
  pub review_started : Option Bool
  pub awaiting_required_reviews : Option Bool
  pub all_required_reviews_complete : Option Bool
  pub lead_review_decision : Option LeadReviewDecision
  pub has_escalation_trigger : Option Bool

-- `{}`, the default context.
abbrev pub empty_context : ReviewCycleTransitionContext
empty_context = record {
  routing_decision_emitted = none;
  review_started = none;
  awaiting_required_reviews = none;
  all_required_reviews_complete = none;
  lead_review_decision = none;
  has_escalation_trigger = none;
}

unfoldable pub guard_not_started_to_routed : ReviewCycleTransitionContext → TransitionResult
guard_not_started_to_routed ctx =
    require (is_true ctx.routing_decision_emitted)
      "Cannot transition NOT_STARTED → ROUTED: routing decision not emitted" valid_transition

unfoldable pub guard_routed_to_in_progress : ReviewCycleTransitionContext → TransitionResult
guard_routed_to_in_progress ctx =
    require (is_true ctx.review_started)
      "Cannot transition ROUTED → IN_PROGRESS: no review has started" valid_transition

unfoldable pub guard_in_progress_to_awaiting_required_reviews :
    ReviewCycleTransitionContext → TransitionResult
guard_in_progress_to_awaiting_required_reviews ctx =
    require (is_true ctx.awaiting_required_reviews)
      "Cannot transition IN_PROGRESS → AWAITING_REQUIRED_REVIEWS: not awaiting required reviews"
      valid_transition

unfoldable pub guard_in_progress_to_consolidating : ReviewCycleTransitionContext → TransitionResult
guard_in_progress_to_consolidating ctx =
    require (is_true ctx.all_required_reviews_complete)
      "Cannot transition IN_PROGRESS → CONSOLIDATING: not all required reviews are complete"
      valid_transition

unfoldable pub guard_awaiting_to_consolidating : ReviewCycleTransitionContext → TransitionResult
guard_awaiting_to_consolidating ctx =
    require (is_true ctx.all_required_reviews_complete)
      "Cannot transition AWAITING_REQUIRED_REVIEWS → CONSOLIDATING: not all required reviews are complete"
      valid_transition

unfoldable pub guard_consolidating_to_approved : ReviewCycleTransitionContext → TransitionResult
guard_consolidating_to_approved ctx =
    require (is_approval ctx.lead_review_decision)
      "Cannot transition CONSOLIDATING → APPROVED: lead reviewer decision must be 'approved' or 'approved_with_follow_up'"
      valid_transition

unfoldable pub guard_consolidating_to_rejected : ReviewCycleTransitionContext → TransitionResult
guard_consolidating_to_rejected ctx =
    require (is_rejection ctx.lead_review_decision)
      "Cannot transition CONSOLIDATING → REJECTED: lead reviewer decision must be 'rejected'"
      valid_transition

unfoldable pub guard_consolidating_to_escalated : ReviewCycleTransitionContext → TransitionResult
guard_consolidating_to_escalated ctx =
    require (is_escalation ctx.lead_review_decision || is_true ctx.has_escalation_trigger)
      "Cannot transition CONSOLIDATING → ESCALATED: requires lead reviewer 'escalated' decision or escalation trigger"
      valid_transition

unfoldable pub guard_in_progress_to_escalated : ReviewCycleTransitionContext → TransitionResult
guard_in_progress_to_escalated ctx =
    require (is_true ctx.has_escalation_trigger)
      "Cannot transition IN_PROGRESS → ESCALATED: no escalation trigger" valid_transition

unfoldable pub guard_awaiting_to_escalated : ReviewCycleTransitionContext → TransitionResult
guard_awaiting_to_escalated ctx =
    require (is_true ctx.has_escalation_trigger)
      "Cannot transition AWAITING_REQUIRED_REVIEWS → ESCALATED: no escalation trigger"
      valid_transition
