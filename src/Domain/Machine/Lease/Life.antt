-- ===== src/Domain/Machine/Lease/Life.antt =====
-- The life of a lease under packages/domain/src/state-machines/worker-lease-state-machine.ts.
use copilot_factory.Prelude.{
  ℕ, ◌<◌, Bool, true, false, ◌||◌, ◌&&◌, List, [], ◌≡◌, ◌⊎◌, ◌↔◌, is_true, arith, some, any, same,
}
use copilot_factory.Domain.Status.Lease.{
  WorkerLeaseStatus, idle, leased, starting, running, heartbeating, completing, timed_out, crashed,
  reclaimed, lease_status_enum,
}
use copilot_factory.Domain.Machine.Lease.Guards.{WorkerLeaseTransitionContext}
use copilot_factory.Domain.Replay.{replay, needs_evidence}
use copilot_factory.Domain.Machine.Lease.{
  validate_worker_lease_transition, get_valid_worker_lease_targets, is_terminal_worker_lease_state,
}

abbrev pub Request : Type 0
Request = WorkerLeaseStatus × WorkerLeaseTransitionContext

-- How far a lease has come.
abbrev pub stage : WorkerLeaseStatus → ℕ
stage idle = 0
stage leased = 1
stage starting = 2
stage running = 3
stage heartbeating = 4
stage completing = 5
stage timed_out = 5
stage crashed = 5
stage reclaimed = 6

abbrev pub beats : Request → Bool
beats r = same r.0 heartbeating && is_true r.1.heartbeat_received

stage_step :
    (c t : WorkerLeaseStatus) (ctx : WorkerLeaseTransitionContext)
    → (validate_worker_lease_transition c t ctx).valid ≡ true
    → (stage c < stage t)
      ⊎ ((c ≡ heartbeating) × (t ≡ heartbeating) × (is_true ctx.heartbeat_received ≡ true))
unfolding validate_worker_lease_transition
stage_step idle idle ctx h = cc
stage_step _ _ ctx h = ground arith

-- A lease never goes back: an accepted change of status either takes it to a later stage, or is the
-- repeated heartbeat of a lease in HEARTBEATING.
pub validate_worker_lease_transition-stage :
    (current target : WorkerLeaseStatus) (context : WorkerLeaseTransitionContext)
    → (validate_worker_lease_transition current target context).valid ≡ true
    → (stage current < stage target)
      ⊎ ((current ≡ heartbeating)
          × (target ≡ heartbeating)
          × (is_true context.heartbeat_received ≡ true))
validate_worker_lease_transition-stage = stage_step

-- A lease status is terminal exactly when `getValidWorkerLeaseTargets` lists nothing for it.
pub is_terminal_worker_lease_state_iff :
    (s : WorkerLeaseStatus)
    → (is_terminal_worker_lease_state s ≡ true) ↔ (get_valid_worker_lease_targets s ≡ [])
unfolding is_terminal_worker_lease_state get_valid_worker_lease_targets
is_terminal_worker_lease_state_iff idle = ground arith
is_terminal_worker_lease_state_iff _ = ground arith

abbrev pub is_lost : WorkerLeaseStatus → Bool
is_lost timed_out = true
is_lost crashed = true
is_lost reclaimed = true
is_lost _ = false

abbrev pub loses : Request → Bool
loses r =
    (same r.0 timed_out && is_true r.1.heartbeat_timed_out)
    || (same r.0 crashed && is_true r.1.worker_crashed)

loss_step :
    (c t : WorkerLeaseStatus) (ctx : WorkerLeaseTransitionContext)
    → (validate_worker_lease_transition c t ctx).valid ≡ true
    → is_lost t ≡ true
    → (is_lost c ≡ true) ⊎ (loses (t, ctx) ≡ true)
unfolding validate_worker_lease_transition
loss_step idle idle ctx h k = cc
loss_step _ _ ctx h k = ground arith

-- A lease that begins in IDLE and is timed out, crashed or reclaimed has in its life a timeout of
-- its heartbeat or a crash of its worker.
pub lost_needs_evidence :
    (log : List Request) (t : WorkerLeaseStatus)
    → replay validate_worker_lease_transition idle log ≡ some t
    → is_lost t ≡ true
    → any loses log ≡ true
lost_needs_evidence log t h k =
    ground (
      arith,
      needs_evidence validate_worker_lease_transition is_lost loses loss_step idle t log h k,
    )
