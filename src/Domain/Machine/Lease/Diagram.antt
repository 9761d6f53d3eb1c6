-- ===== src/Domain/Machine/Lease/Diagram.antt =====
-- packages/domain/src/state-machines/worker-lease-state-machine.ts against the lease protocol as a
-- relation.
use copilot_factory.Prelude.{true, ◌≡◌, ◌↔◌, is_true, arith}
use copilot_factory.Domain.Status.Lease.{
  WorkerLeaseStatus, idle, leased, starting, running, heartbeating, completing, timed_out, crashed,
  reclaimed, lease_status_enum,
}
use copilot_factory.Domain.Machine.Lease.Guards.{WorkerLeaseTransitionContext}
use copilot_factory.Domain.Machine.Lease.{validate_worker_lease_transition}

-- The states in which a worker process holds the lease.
pub data IsHeld : WorkerLeaseStatus → Type 0 where
  held_starting : IsHeld starting
  held_running : IsHeld running
  held_heartbeating : IsHeld heartbeating

pub data Row (ctx : WorkerLeaseTransitionContext)
    : WorkerLeaseStatus → WorkerLeaseStatus → Type 0 where
  grant : is_true ctx.lease_acquired ≡ true → Row ctx idle leased
  spawn : is_true ctx.worker_process_spawned ≡ true → Row ctx leased starting
  first_beat : is_true ctx.first_heartbeat_received ≡ true → Row ctx starting running
  second_beat : is_true ctx.heartbeat_received ≡ true → Row ctx running heartbeating
  beat : is_true ctx.heartbeat_received ≡ true → Row ctx heartbeating heartbeating
  complete_work :
      {s : WorkerLeaseStatus}
      → IsHeld s
      → is_true ctx.completion_signal_received ≡ true
      → Row ctx s completing
  time_out :
      {s : WorkerLeaseStatus}
      → IsHeld s
      → is_true ctx.heartbeat_timed_out ≡ true
      → Row ctx s timed_out
  crash : {s : WorkerLeaseStatus} → IsHeld s → is_true ctx.worker_crashed ≡ true → Row ctx s crashed
  reclaim_timed_out : is_true ctx.reclaim_requested ≡ true → Row ctx timed_out reclaimed
  reclaim_crashed : is_true ctx.reclaim_requested ≡ true → Row ctx crashed reclaimed

ruleset rows = (
  grant, spawn, first_beat, second_beat, beat, complete_work, time_out, crash, reclaim_timed_out,
  reclaim_crashed, held_starting, held_running, held_heartbeating,
)

sound :
    (c t : WorkerLeaseStatus) (ctx : WorkerLeaseTransitionContext)
    → (validate_worker_lease_transition c t ctx).valid ≡ true
    → Row ctx c t
unfolding validate_worker_lease_transition
sound idle idle ctx h = grind (arith, rows)
sound _ _ ctx h = grind (arith, rows)

complete :
    (c t : WorkerLeaseStatus) (ctx : WorkerLeaseTransitionContext)
    → Row ctx c t
    → (validate_worker_lease_transition c t ctx).valid ≡ true
unfolding validate_worker_lease_transition
complete c t ctx (grant a) = ground arith
complete c t ctx (spawn a) = ground arith
complete c t ctx (first_beat a) = ground arith
complete c t ctx (second_beat a) = ground arith
complete c t ctx (beat a) = ground arith
complete c t ctx (complete_work held_starting a) = ground arith
complete c t ctx (complete_work held_running a) = ground arith
complete c t ctx (complete_work held_heartbeating a) = ground arith
complete c t ctx (time_out held_starting a) = ground arith
complete c t ctx (time_out held_running a) = ground arith
complete c t ctx (time_out held_heartbeating a) = ground arith
complete c t ctx (crash held_starting a) = ground arith
complete c t ctx (crash held_running a) = ground arith
complete c t ctx (crash held_heartbeating a) = ground arith
complete c t ctx (reclaim_timed_out a) = ground arith
complete c t ctx (reclaim_crashed a) = ground arith

-- `validateWorkerLeaseTransition` accepts a change of status, for given evidence, exactly when the
-- relation `Row` holds: a held lease beats, completes, times out or crashes, and only a lease that
-- timed out or crashed is reclaimed.
pub validate_worker_lease_transition-Row :
    (current target : WorkerLeaseStatus) (context : WorkerLeaseTransitionContext)
    → ((validate_worker_lease_transition current target context).valid ≡ true)
      ↔ Row context current target
validate_worker_lease_transition-Row current target context =
    (sound current target context, complete current target context)
