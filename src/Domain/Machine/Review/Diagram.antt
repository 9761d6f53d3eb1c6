-- ===== src/Domain/Machine/Review/Diagram.antt =====
-- packages/domain/src/state-machines/review-cycle-state-machine.ts against the review protocol as a
-- relation, and the length of a review cycle.
use copilot_factory.Prelude.{
  ℕ, ◌≤◌, ◌+◌, ◌<◌, true, List, [], ◌∷◌, ◌≡◌, ◌↔◌, is_true, arith, some, length,
}
use copilot_factory.Domain.Status.Review.{
  ReviewCycleStatus, not_started, routed, in_progress, awaiting_required_reviews, consolidating,
  approved, rejected, escalated, review_status_enum,
}
use copilot_factory.Domain.Machine.Review.Guards.{
  ReviewCycleTransitionContext, is_approval, is_rejection, is_escalation,
}
use copilot_factory.Domain.Replay.{replay, replay-cons}
use copilot_factory.Domain.Machine.Review.{
  validate_review_cycle_transition, get_valid_review_cycle_targets, is_terminal_review_cycle_state,
}

pub data Row (ctx : ReviewCycleTransitionContext)
    : ReviewCycleStatus → ReviewCycleStatus → Type 0 where
  route : is_true ctx.routing_decision_emitted ≡ true → Row ctx not_started routed
  start : is_true ctx.review_started ≡ true → Row ctx routed in_progress
  wait :
      is_true ctx.awaiting_required_reviews ≡ true → Row ctx in_progress awaiting_required_reviews
  gather : is_true ctx.all_required_reviews_complete ≡ true → Row ctx in_progress consolidating
  gather_awaited :
      is_true ctx.all_required_reviews_complete ≡ true
      → Row ctx awaiting_required_reviews consolidating
  approve : is_approval ctx.lead_review_decision ≡ true → Row ctx consolidating approved
  refuse : is_rejection ctx.lead_review_decision ≡ true → Row ctx consolidating rejected
  escalate_decision :
      is_escalation ctx.lead_review_decision ≡ true → Row ctx consolidating escalated
  escalate_consolidating :
      is_true ctx.has_escalation_trigger ≡ true → Row ctx consolidating escalated
  escalate_in_progress : is_true ctx.has_escalation_trigger ≡ true → Row ctx in_progress escalated
  escalate_awaiting :
      is_true ctx.has_escalation_trigger ≡ true → Row ctx awaiting_required_reviews escalated

ruleset rows = (
  route, start, wait, gather, gather_awaited, approve, refuse, escalate_decision,
  escalate_consolidating, escalate_in_progress, escalate_awaiting,
)

sound :
    (c t : ReviewCycleStatus) (ctx : ReviewCycleTransitionContext)
    → (validate_review_cycle_transition c t ctx).valid ≡ true
    → Row ctx c t
unfolding validate_review_cycle_transition
sound not_started not_started ctx h = grind (arith, rows)
sound _ _ ctx h = grind (arith, rows)

complete :
    (c t : ReviewCycleStatus) (ctx : ReviewCycleTransitionContext)
    → Row ctx c t
    → (validate_review_cycle_transition c t ctx).valid ≡ true
unfolding validate_review_cycle_transition
complete c t ctx (route a) = ground arith
complete c t ctx (start a) = ground arith
complete c t ctx (wait a) = ground arith
complete c t ctx (gather a) = ground arith
complete c t ctx (gather_awaited a) = ground arith
complete c t ctx (approve a) = ground arith
complete c t ctx (refuse a) = ground arith
complete c t ctx (escalate_decision a) = ground arith
complete c t ctx (escalate_consolidating a) = ground arith
complete c t ctx (escalate_in_progress a) = ground arith
complete c t ctx (escalate_awaiting a) = ground arith

-- `validateReviewCycleTransition` accepts a change of status, for given evidence, exactly when the
-- relation `Row` holds.
pub validate_review_cycle_transition-Row :
    (current target : ReviewCycleStatus) (context : ReviewCycleTransitionContext)
    → ((validate_review_cycle_transition current target context).valid ≡ true)
      ↔ Row context current target
validate_review_cycle_transition-Row current target context =
    (sound current target context, complete current target context)

abbrev pub Request : Type 0
Request = ReviewCycleStatus × ReviewCycleTransitionContext

abbrev pub stage : ReviewCycleStatus → ℕ
stage not_started = 0
stage routed = 1
stage in_progress = 2
stage awaiting_required_reviews = 3
stage consolidating = 4
stage _ = 5

stage_step :
    (c t : ReviewCycleStatus) (ctx : ReviewCycleTransitionContext)
    → (validate_review_cycle_transition c t ctx).valid ≡ true
    → stage c < stage t
unfolding validate_review_cycle_transition
stage_step not_started not_started ctx h = absurd (cc)
stage_step _ _ ctx h = ground arith

length-le-stage :
    (s t : ReviewCycleStatus) (log : List Request)
    → replay validate_review_cycle_transition s log ≡ some t
    → length log + stage s ≤ stage t
unfolding replay
length-le-stage s t [] h = ground arith
length-le-stage s t (r ∷ log) h =
    let (v, later) = replay-cons validate_review_cycle_transition s r log t h in
    omega (arith, length-le-stage r.0 t log later, stage_step s r.0 r.1 v)

stage-le : (s : ReviewCycleStatus) → stage s ≤ 5
stage-le not_started = omega arith
stage-le _ = omega arith

-- A review cycle ends: from any status at most five accepted changes follow one another.
pub review_cycle_length :
    (s t : ReviewCycleStatus) (log : List Request)
    → replay validate_review_cycle_transition s log ≡ some t
    → length log ≤ 5
review_cycle_length s t log h = omega (arith, length-le-stage s t log h, stage-le t)

-- A review cycle status is terminal exactly when `getValidReviewCycleTargets` lists nothing for it.
pub is_terminal_review_cycle_state_iff :
    (s : ReviewCycleStatus)
    → (is_terminal_review_cycle_state s ≡ true) ↔ (get_valid_review_cycle_targets s ≡ [])
unfolding is_terminal_review_cycle_state get_valid_review_cycle_targets
is_terminal_review_cycle_state_iff not_started = ground arith
is_terminal_review_cycle_state_iff _ = ground arith
