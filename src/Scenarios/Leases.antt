-- ===== src/Scenarios/Leases.antt =====
-- Runs of the lease services of packages/application/src/services.
use copilot_factory.Prelude.{
  all, ◌+◌, true, false, any, ◌≡◌, ◌↔◌, ◌⊎◌, refl, arith, none, some, [], ◌∷◌, Memᴰ,
}
use copilot_factory.Domain.Status.Task.{ready, in_development}
use copilot_factory.Domain.Status.Lease.{
  WorkerLeaseStatus, running, heartbeating, completing, timed_out,
}
use copilot_factory.Domain.Status.Job.{developer}
use copilot_factory.Domain.Policy.Retry.{default_retry_policy}
use copilot_factory.Domain.Policy.Escalation.{
  EscalationTrigger, default_escalation_policy, get_trigger_action,
}
use copilot_factory.Domain.Machine.Lease.{validate_worker_lease_transition}
use copilot_factory.Service.Errors.{ok, EntityType, throw, ServiceError}
use copilot_factory.Service.Tables.{
  TaskRow, LeaseRow, PoolRow, has_pool_id, ActorInfo, Tables, ReclaimReason, find_task, find_lease,
  find_active_by_task_id, has_lease_id, is_active, update_lease, AuditEvent, AuditState,
  DomainEvent,
}
use copilot_factory.Service.Tables.Exclusive.{IsExclusive}
use copilot_factory.Service.Lease.{AcquireLeaseParams, LeaseAcquisitionResult, acquire_lease}
use copilot_factory.Service.Lease.Acquire.{MayAcquire, acquire_lease_iff}
use copilot_factory.Service.Heartbeat.{
  ReceiveHeartbeatParams, ReceiveHeartbeatResult, StalenessPolicy, receive_heartbeat,
  check_heartbeat, compute_target_status, build_transition_context, set_heartbeat,
  detect_stale_leases,
}
use copilot_factory.Service.Heartbeat.Beat.{receive_heartbeat_fresh}
use copilot_factory.Service.Reclaim.{
  ReclaimLeaseParams, ReclaimLeaseResult, reclaim_lease, is_reclaimable,
}
use copilot_factory.Service.TaskOutcome.{evaluate_task_outcome}
use copilot_factory.Service.Reclaim.Outcome.{reclaim_lease_iff}
use copilot_factory.Service.Reclaim.Retries.{MayRetry, Fails, evaluate_task_outcome_cases}
use copilot_factory.Service.Completion.{AcceptResultParams, AcceptResultResult, accept_result}
use copilot_factory.Service.Completion.Deadline.{Accepted, IsAcceptable, accept_result_cases}
use copilot_factory.Service.Exclusivity.{
  acquire, beat, reclaim, perform_all, perform_all-IsExclusive,
}
use copilot_factory.Service.Exclusivity.Completing.{completing_blocks}
use copilot_factory.Service.Exclusivity.Retries.{is_within, perform_all_within}

abbrev system : ActorInfo
system = record { type = "system"; id = 1 }

abbrev waiting : TaskRow
waiting = record {
  task_id = 7;
  status = ready;
  version = 1;
  retry_count = 0;
  current_lease_id = none;
}

abbrev pool : PoolRow
pool = record {
  worker_pool_id = 4;
  pool_type = developer;
  capabilities = [];
  max_concurrency = 2;
  default_timeout_sec = none;
  enabled = true;
}

abbrev start : Tables
start = record { tasks = waiting ∷ []; leases = []; pools = pool ∷ []; audit_events = [] }

abbrev request : AcquireLeaseParams
request = record {
  task_id = 7;
  worker_id = 3;
  pool_id = 4;
  ttl_seconds = 600;
  actor = system;
  metadata = none;
}

acquire_lease_iff_example :
    ((w : Tables × LeaseAcquisitionResult) × (acquire_lease 50 1000 request start ≡ ok w)) ↔ (
      (task : TaskRow) × (find_task 7 start ≡ some task)
      × MayAcquire system task.status
      × (find_active_by_task_id 7 start ≡ none)
      × (any (has_lease_id 50) [] ≡ false)
      × (any (has_pool_id 4) start.pools ≡ true))
acquire_lease_iff_example = acquire_lease_iff 50 1000 request start

abbrev lease_in : WorkerLeaseStatus → LeaseRow
lease_in status = record {
  lease_id = 50;
  task_id = 7;
  worker_id = 3;
  pool_id = 4;
  status = status;
  leased_at = 1000;
  expires_at = 1600;
  heartbeat_at = none;
  reclaim_reason = none;
}

abbrev with_lease : WorkerLeaseStatus → Tables
with_lease status = record {
  tasks = record waiting { status = in_development; current_lease_id = some 50 } ∷ [];
  leases = lease_in status ∷ [];
  pools = pool ∷ [];
  audit_events = [];
}

abbrev signal : ReceiveHeartbeatParams
signal = record {
  lease_id = 50;
  is_completing = true;
  grace_period_seconds = some 900;
  worker_metadata = none;
  actor = system;
}

abbrev lost : ReclaimLeaseParams
lost = record {
  lease_id = 50;
  reason = ReclaimReason.missed_heartbeats;
  retry_policy = default_retry_policy;
  escalation_policy = default_escalation_policy;
  has_failure_summary = true;
  actor = system;
  metadata = none;
}

perform_all-IsExclusive_example :
    IsExclusive
      (perform_all
        (acquire 50 1000 request
          ∷ acquire 51 1001 request
          ∷ beat 1030000 signal
          ∷ reclaim lost
          ∷ [])
        (with_lease running)).leases
unfolding is_active
perform_all-IsExclusive_example =
    perform_all-IsExclusive
      (acquire 50 1000 request ∷ acquire 51 1001 request ∷ beat 1030000 signal ∷ reclaim lost ∷ [])
      (with_lease running) (refl, refl, tt)

completing_blocks_example : ¬ (
    (w : Tables × LeaseAcquisitionResult) × (acquire_lease 51 1001 request
        (perform_all (beat 1030000 signal ∷ reclaim lost ∷ []) (with_lease completing))
      ≡ ok w))
completing_blocks_example =
    completing_blocks (beat 1030000 signal ∷ reclaim lost ∷ []) (with_lease completing) 51 1001
      request refl

abbrev policy : StalenessPolicy
policy = record {
  heartbeat_interval_seconds = 30;
  missed_heartbeat_threshold = 2;
  grace_period_seconds = 15;
}

reclaim_lease_iff_example :
    ((w : Tables × ReclaimLeaseResult) × (reclaim_lease lost (with_lease running) ≡ ok w)) ↔ (
      (lease : LeaseRow) × (task : TaskRow) × (find_lease 50 (with_lease running) ≡ some lease)
      × (is_reclaimable lease.status ≡ true)
      × (find_task lease.task_id (with_lease running) ≡ some task))
reclaim_lease_iff_example = reclaim_lease_iff lost (with_lease running)

evaluate_task_outcome_cases_example :
    (MayRetry waiting default_retry_policy false
      × ((evaluate_task_outcome waiting default_retry_policy default_escalation_policy
            false).target_status
          ≡ ready)
      × ((evaluate_task_outcome waiting default_retry_policy default_escalation_policy
            false).new_retry_count
          ≡ 0 + 1))
    ⊎ ((¬ MayRetry waiting default_retry_policy false)
        × ((evaluate_task_outcome waiting default_retry_policy default_escalation_policy
              false).new_retry_count
            ≡ 0)
        × Fails
            (evaluate_task_outcome waiting default_retry_policy default_escalation_policy false)
            (get_trigger_action EscalationTrigger.heartbeat_timeout default_escalation_policy))
evaluate_task_outcome_cases_example =
    evaluate_task_outcome_cases waiting default_retry_policy default_escalation_policy false

-- A heartbeat of a running worker.
abbrev pulse : ReceiveHeartbeatParams
pulse = record signal { is_completing = false; grace_period_seconds = none }

abbrev beaten_row : LeaseRow
beaten_row = record (lease_in running) { status = heartbeating; heartbeat_at = some 1030 }

abbrev beaten_audit : AuditEvent
beaten_audit = record {
  entity_type = EntityType.task_lease;
  entity_id = 50;
  event_type = "lease.heartbeat";
  actor = system;
  old_state = AuditState.heartbeat running none 1600;
  new_state = AuditState.heartbeat heartbeating (some 1030) 1600;
  metadata = none;
}

abbrev beaten : Tables × ReceiveHeartbeatResult
beaten = (
  record (with_lease running) { leases = beaten_row ∷ []; audit_events = beaten_audit ∷ [] },
  record {
    lease = beaten_row;
    previous_status = running;
    audit_event = beaten_audit;
    events = DomainEvent.lease_transitioned 50 system running heartbeating ∷ [];
  },
)

pulse_returned : receive_heartbeat 1030000 pulse (with_lease running) ≡ ok beaten
unfolding receive_heartbeat check_heartbeat validate_worker_lease_transition compute_target_status
    build_transition_context update_lease set_heartbeat
pulse_returned = refl

receive_heartbeat_fresh_example :
    (find_lease 50 beaten.0 ≡ some beaten_row)
    × ((row : LeaseRow)
        → row.lease_id ≡ 50
        → ¬ Memᴰ
            (row, ReclaimReason.missed_heartbeats)
            (detect_stale_leases 1100000 policy beaten.0))
receive_heartbeat_fresh_example =
    receive_heartbeat_fresh 1030000 1100000 pulse policy (with_lease running) beaten (refl, tt)
      pulse_returned (omega arith)

perform_all_within_example :
    all
      (is_within 2)
      (perform_all
        (reclaim lost ∷ acquire 51 1001 request ∷ reclaim lost ∷ [])
        (with_lease running)).tasks
    ≡ true
perform_all_within_example =
    perform_all_within 2 (reclaim lost ∷ acquire 51 1001 request ∷ reclaim lost ∷ [])
      (with_lease running) (unfold default_retry_policy in refl) refl

abbrev delivery : AcceptResultParams
delivery = record {
  lease_id = 50;
  worker_id = 3;
  grace_period_seconds = 15;
  actor = system;
  metadata = none;
}

accept_result_cases_example :
    ((r : AcceptResultResult) × ((accept_result 1610000 delivery (with_lease timed_out)).1 ≡ ok r)
      × Accepted 1610000 delivery
          (with_lease timed_out)
          (accept_result 1610000 delivery (with_lease timed_out)).0
          r)
    ⊎ ((e : ServiceError) × (accept_result 1610000 delivery (with_lease timed_out)
          ≡ (with_lease timed_out, throw e))
        × ¬ IsAcceptable 1610000 delivery (with_lease timed_out))
accept_result_cases_example = accept_result_cases 1610000 delivery (with_lease timed_out)
