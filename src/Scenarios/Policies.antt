-- ===== src/Scenarios/Policies.antt =====
-- Runs of the policies of packages/domain/src.
use copilot_factory.Prelude.{true, none, some, String}
use copilot_factory.Domain.Status.Task.{done}
use copilot_factory.Domain.Policy.Retry.{RetryEvaluationContext}
use copilot_factory.Domain.Policy.Escalation.{EscalationContext, EscalationTrigger}
use copilot_factory.Domain.Policy.Cleanup.{WorkspaceCleanupInput, ms_per_hour}

abbrev once_failed : RetryEvaluationContext
once_failed = record { retry_count = 1; has_failure_summary = true }

abbrev third_round : EscalationContext
third_round = record {
  trigger = EscalationTrigger.max_review_rounds_exceeded;
  retry_count = none;
  max_attempts = none;
  review_round = some 2;
  max_review_rounds = some 3;
  schema_failure_count = none;
  schema_failure_threshold = none;
}

abbrev actor : String
actor = "system"

abbrev an_hour_after : WorkspaceCleanupInput
an_hour_after = record {
  task_status = done;
  retention_policy = record {
    workspace_retention_hours = 24;
    retain_failed_workspaces = true;
    retain_escalated_workspaces = true;
  };
  terminal_state_at = 0;
  now = ms_per_hour;
}
