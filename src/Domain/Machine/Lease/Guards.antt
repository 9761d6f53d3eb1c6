-- ===== src/Domain/Machine/Lease/Guards.antt =====
-- packages/domain/src/state-machines/worker-lease-state-machine.ts: the evidence that a caller gives, and one guard
-- for each transition.
use copilot_factory.Prelude.{Bool, Option, none, is_true}
use copilot_factory.Domain.Guards.{TransitionResult, valid_transition, require}

-- Each field may be `undefined`.
pub record WorkerLeaseTransitionContext : Type 0 where
  pub lease_acquired : Option Bool
  pub worker_process_spawned : Option Bool
  pub first_heartbeat_received : Option Bool
  pub heartbeat_received : Option Bool
  pub completion_signal_received : Option Bool
  pub heartbeat_timed_out : Option Bool
  pub worker_crashed : Option Bool
  pub reclaim_requested : Option Bool

-- `{}`, the default context.
abbrev pub empty_context : WorkerLeaseTransitionContext
empty_context = record {
  lease_acquired = none;
  worker_process_spawned = none;
  first_heartbeat_received = none;
  heartbeat_received = none;
  completion_signal_received = none;
  heartbeat_timed_out = none;
  worker_crashed = none;
  reclaim_requested = none;
}

unfoldable pub guard_idle_to_leased : WorkerLeaseTransitionContext → TransitionResult
guard_idle_to_leased ctx =
    require (is_true ctx.lease_acquired) "Cannot transition IDLE → LEASED: lease not acquired"
      valid_transition

unfoldable pub guard_leased_to_starting : WorkerLeaseTransitionContext → TransitionResult
guard_leased_to_starting ctx =
    require (is_true ctx.worker_process_spawned)
      "Cannot transition LEASED → STARTING: worker process not spawned" valid_transition

unfoldable pub guard_starting_to_running : WorkerLeaseTransitionContext → TransitionResult
guard_starting_to_running ctx =
    require (is_true ctx.first_heartbeat_received)
      "Cannot transition STARTING → RUNNING: first heartbeat not received" valid_transition

unfoldable pub guard_running_to_heartbeating : WorkerLeaseTransitionContext → TransitionResult
guard_running_to_heartbeating ctx =
    require (is_true ctx.heartbeat_received)
      "Cannot transition RUNNING → HEARTBEATING: heartbeat not received" valid_transition

unfoldable pub guard_heartbeating_to_heartbeating : WorkerLeaseTransitionContext → TransitionResult
guard_heartbeating_to_heartbeating ctx =
    require (is_true ctx.heartbeat_received)
      "Cannot transition HEARTBEATING → HEARTBEATING: heartbeat not received" valid_transition

unfoldable pub guard_to_completing : WorkerLeaseTransitionContext → TransitionResult
guard_to_completing ctx =
    require (is_true ctx.completion_signal_received)
      "Cannot transition to COMPLETING: no completion signal received" valid_transition

unfoldable pub guard_to_timed_out : WorkerLeaseTransitionContext → TransitionResult
guard_to_timed_out ctx =
    require (is_true ctx.heartbeat_timed_out)
      "Cannot transition to TIMED_OUT: heartbeat timeout not expired" valid_transition

unfoldable pub guard_to_crashed : WorkerLeaseTransitionContext → TransitionResult
guard_to_crashed ctx =
    require (is_true ctx.worker_crashed) "Cannot transition to CRASHED: worker has not crashed"
      valid_transition

unfoldable pub guard_to_reclaimed : WorkerLeaseTransitionContext → TransitionResult
guard_to_reclaimed ctx =
    require (is_true ctx.reclaim_requested) "Cannot transition to RECLAIMED: reclaim not requested"
      valid_transition
