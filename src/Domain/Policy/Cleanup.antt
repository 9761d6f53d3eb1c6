-- ===== src/Domain/Policy/Cleanup.antt =====
-- packages/domain/src/workspace-cleanup-policy.ts. Times are milliseconds since the epoch; the
-- difference of two times, which may be negative, is compared by moving the earlier time over.
use copilot_factory.Prelude.{
  ℕ, ◌+◌, ◌-◌, ◌*◌, ◌/◌, ◌≤◌, Bool, true, false, not, ◌&&◌, ltb, same, if◌then◌else◌, ◌≡◌, ◌↔◌, ◌⊎◌,
  arith,
}
use copilot_factory.Domain.Status.Task.{
  TaskStatus, done, failed, cancelled, escalated, task_status_enum,
}
use copilot_factory.Domain.Machine.Task.{is_terminal_state}

pub record WorkspaceRetentionPolicy : Type 0 where
  pub workspace_retention_hours : ℕ
  pub retain_failed_workspaces : Bool
  pub retain_escalated_workspaces : Bool

pub record WorkspaceCleanupInput : Type 0 where
  pub task_status : TaskStatus
  pub retention_policy : WorkspaceRetentionPolicy
  pub terminal_state_at : ℕ
  pub now : ℕ

-- The texts of `reason`, with the values that they quote.
pub data CleanupReason : Type 0 where
  escalated_retained failed_retained elapsed : CleanupReason
  non_terminal : TaskStatus → CleanupReason
  hours_remaining : ℕ → CleanupReason

pub record WorkspaceCleanupEligibility : Type 0 where
  pub eligible : Bool
  pub reason : CleanupReason

abbrev pub ms_per_hour : ℕ
ms_per_hour = 60 * 60 * 1000

-- `Math.ceil((retentionMs - elapsedMs) / MS_PER_HOUR)`, of a positive difference.
unfoldable pub remaining_hours : WorkspaceCleanupInput → ℕ
remaining_hours input =
    (input.terminal_state_at
      + input.retention_policy.workspace_retention_hours * ms_per_hour
      - input.now
      + (ms_per_hour - 1))
    / ms_per_hour

unfoldable pub is_workspace_cleanup_eligible : WorkspaceCleanupInput → WorkspaceCleanupEligibility
unfolding is_terminal_state remaining_hours
is_workspace_cleanup_eligible input =
    if same input.task_status escalated
    then record { eligible = false; reason = CleanupReason.escalated_retained }
    else if not (is_terminal_state input.task_status)
    then record { eligible = false; reason = CleanupReason.non_terminal input.task_status }
    else if same input.task_status failed && input.retention_policy.retain_failed_workspaces
    then record { eligible = false; reason = CleanupReason.failed_retained }
    else if ltb input.now
        (input.terminal_state_at + input.retention_policy.workspace_retention_hours * ms_per_hour)
    then record { eligible = false; reason = CleanupReason.hours_remaining (remaining_hours input) }
    else record { eligible = true; reason = CleanupReason.elapsed }

-- A workspace may be removed exactly when its task is DONE, CANCELLED, or FAILED without the policy
-- of keeping those, and the retention period since then has passed.
pub is_workspace_cleanup_eligible_iff :
    (input : WorkspaceCleanupInput)
    → ((is_workspace_cleanup_eligible input).eligible ≡ true) ↔ (
        ((input.task_status ≡ done)
          ⊎ ((input.task_status ≡ cancelled)
              ⊎ ((input.task_status ≡ failed)
                  × (input.retention_policy.retain_failed_workspaces ≡ false))))
        × (input.terminal_state_at + input.retention_policy.workspace_retention_hours * ms_per_hour
            ≤ input.now))
unfolding is_workspace_cleanup_eligible
is_workspace_cleanup_eligible_iff input = (λ h. ground arith, λ h. ground arith)

-- The same question some hours later.
abbrev pub later : ℕ → WorkspaceCleanupInput → WorkspaceCleanupInput
later hours input = record input { now = input.now + hours * ms_per_hour }

-- The hours that a refusal reports are the least number of hours after which the same question is
-- answered with yes.
pub hours_remaining_exact :
    (input : WorkspaceCleanupInput) (hours k : ℕ)
    → (is_workspace_cleanup_eligible input).reason ≡ CleanupReason.hours_remaining hours
    → ((is_workspace_cleanup_eligible (later k input)).eligible ≡ true) ↔ (hours ≤ k)
unfolding is_workspace_cleanup_eligible
hours_remaining_exact input hours k h = (λ e. ground arith, λ e. ground arith)
