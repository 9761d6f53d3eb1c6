-- ===== src/Domain/Machine/Lease.antt =====
-- packages/domain/src/state-machines/worker-lease-state-machine.ts.
pub mod Guards
pub mod Diagram
pub mod Life
use Prim.Native.String.{◌++◌}
use copilot_factory.Prelude.{
  Bool, not, ◌&&◌, Option, none, some, String, List, [], ◌∷◌, any, same, if◌then◌else◌,
}
use copilot_factory.Domain.Status.Lease.{
  WorkerLeaseStatus, idle, leased, starting, running, heartbeating, completing, timed_out, crashed,
  reclaimed, lease_status_enum,
}
use copilot_factory.Domain.Status.Text.{lease_status_text}
use copilot_factory.Domain.Guards.{
  TransitionResult, reject, GuardTable, find_guard, targets_from, table_edges,
}
use Guards.{
  WorkerLeaseTransitionContext, guard_idle_to_leased, guard_leased_to_starting,
  guard_starting_to_running, guard_running_to_heartbeating, guard_heartbeating_to_heartbeating,
  guard_to_completing, guard_to_timed_out, guard_to_crashed, guard_to_reclaimed,
}

-- `TRANSITION_GUARDS`.
unfoldable pub transition_guards : GuardTable WorkerLeaseStatus WorkerLeaseTransitionContext
unfolding guard_idle_to_leased guard_leased_to_starting guard_starting_to_running
    guard_running_to_heartbeating guard_heartbeating_to_heartbeating guard_to_completing
    guard_to_timed_out guard_to_crashed guard_to_reclaimed
transition_guards =
    (idle, leased, guard_idle_to_leased)
    ∷ (leased, starting, guard_leased_to_starting)
    ∷ (starting, running, guard_starting_to_running)
    ∷ (running, heartbeating, guard_running_to_heartbeating)
    ∷ (heartbeating, heartbeating, guard_heartbeating_to_heartbeating)
    ∷ (running, completing, guard_to_completing)
    ∷ (heartbeating, completing, guard_to_completing)
    ∷ (starting, completing, guard_to_completing)
    ∷ (starting, timed_out, guard_to_timed_out)
    ∷ (running, timed_out, guard_to_timed_out)
    ∷ (heartbeating, timed_out, guard_to_timed_out)
    ∷ (starting, crashed, guard_to_crashed)
    ∷ (running, crashed, guard_to_crashed)
    ∷ (heartbeating, crashed, guard_to_crashed)
    ∷ (timed_out, reclaimed, guard_to_reclaimed)
    ∷ (crashed, reclaimed, guard_to_reclaimed)
    ∷ []

-- `TERMINAL_STATES.has(state)`.
unfoldable pub is_terminal_worker_lease_state : WorkerLeaseStatus → Bool
is_terminal_worker_lease_state state = any (same state) (completing ∷ reclaimed ∷ [])

unfoldable pub validate_worker_lease_transition :
    WorkerLeaseStatus → WorkerLeaseStatus → WorkerLeaseTransitionContext → TransitionResult
unfolding transition_guards find_guard
validate_worker_lease_transition current target context =
    if same current target && not (same current heartbeating)
    then reject ("Cannot transition from " ++ lease_status_text current ++ " to itself")
    else elim (find_guard current target transition_guards) [
      | some guard ↦ guard context
      | none ↦ reject (
          "Invalid transition: "
          ++ lease_status_text current
          ++ " → "
          ++ lease_status_text target
          ++ " is not a valid worker lease state transition")
    ]

unfoldable pub get_valid_worker_lease_targets : WorkerLeaseStatus → List WorkerLeaseStatus
unfolding transition_guards targets_from
get_valid_worker_lease_targets current = targets_from current transition_guards

unfoldable pub get_all_valid_worker_lease_transitions : List (WorkerLeaseStatus × WorkerLeaseStatus)
unfolding transition_guards table_edges
get_all_valid_worker_lease_transitions = table_edges transition_guards
