-- ===== src/Scenarios/Tasks.antt =====
-- Runs of packages/domain/src/state-machines/task-state-machine.ts.
use copilot_factory.Prelude.{true, ◌≡◌, refl, ◌↔◌, some, List, [], ◌∷◌}
use copilot_factory.Domain.Status.Task.{
  backlog, ready, assigned, in_development, dev_complete, in_review, approved, queued_for_merge,
  merging, escalated, done, task_status_enum,
}
use copilot_factory.Domain.Machine.Task.Context.{
  TransitionContext, empty_context, LeadReviewDecision,
}
use copilot_factory.Domain.Replay.{replay}
use copilot_factory.Domain.Machine.Task.{validate_transition}
use copilot_factory.Domain.Machine.Task.Diagram.{Row, validate_transition-Row}
use copilot_factory.Domain.Machine.Task.History.{Request, done_reachable, way_to_done}

abbrev by_operator : TransitionContext
by_operator = record empty_context { is_operator = some true; lease_acquired = some true }

validate_transition-Row_example :
    ((validate_transition escalated assigned by_operator).valid ≡ true)
    ↔ Row by_operator escalated assigned
validate_transition-Row_example = validate_transition-Row escalated assigned by_operator

-- The way of a task to MERGING.
abbrev evidence : TransitionContext
evidence = record empty_context {
  all_dependencies_resolved = some true;
  lease_acquired = some true;
  has_heartbeat = some true;
  has_dev_result_packet = some true;
  required_validations_passed = some true;
  has_review_routing_decision = some true;
  lead_review_decision = some LeadReviewDecision.approved;
}

abbrev way_to_merging : List Request
way_to_merging =
    (ready, evidence)
    ∷ (assigned, evidence)
    ∷ (in_development, evidence)
    ∷ (dev_complete, evidence)
    ∷ (in_review, evidence)
    ∷ (approved, evidence)
    ∷ (queued_for_merge, evidence)
    ∷ (merging, evidence)
    ∷ []

reaches_merging : replay validate_transition backlog way_to_merging ≡ some merging
unfolding replay validate_transition
reaches_merging = refl

reaches_done : replay validate_transition backlog (way_to_done backlog) ≡ some done
unfolding replay validate_transition
reaches_done = refl

done_reachable_example :
    (log : List Request) × (replay validate_transition escalated log ≡ some done)
done_reachable_example = done_reachable escalated (λ e. cc) (λ e. cc)
