-- ===== src/Service/Heartbeat.antt =====
-- packages/application/src/services/heartbeat.service.ts, with the adapter
-- `createHeartbeatUnitOfWork` of apps/control-plane/src/automation/application-adapters.ts. The clock
-- gives milliseconds, a column holds the whole seconds of a time. Traces and metrics are left out.
pub mod Beat
use copilot_factory.Prelude.{
  ℕ, ◌+◌, ◌*◌, ◌/◌, Bool, true, false, ◌&&◌, ◌||◌, ltb, leb, Option, none, some, String, List, [],
  ◌∷◌, any, filterb, map, same, if◌then◌else◌,
}
use copilot_factory.Domain.Status.Lease.{
  WorkerLeaseStatus, leased, starting, running, heartbeating, completing, lease_status_enum,
}
use copilot_factory.Domain.Guards.{TransitionResult}
use copilot_factory.Domain.Machine.Lease.Guards.{WorkerLeaseTransitionContext, empty_context}
use copilot_factory.Domain.Machine.Lease.{validate_worker_lease_transition}
use copilot_factory.Service.Errors.{
  Result, ok, throw, ◌>>=◌, ◌>>◌, or_throw, unless_throw, EntityType, ServiceError, Status,
}
use copilot_factory.Service.Tables.{
  LeaseRow, ActorInfo, AuditEvent, AuditState, DomainEvent, Tables, ReclaimReason, find_lease,
  update_lease, record_audit,
}

-- `HEARTBEAT_RECEIVABLE_STATES.has(status)`.
unfoldable pub is_receivable : WorkerLeaseStatus → Bool
is_receivable status = any (same status) (starting ∷ running ∷ heartbeating ∷ [])

unfoldable pub compute_target_status : WorkerLeaseStatus → Bool → WorkerLeaseStatus
compute_target_status current true = completing
compute_target_status starting false = running
compute_target_status running false = heartbeating
compute_target_status heartbeating false = heartbeating
compute_target_status current false = current

unfoldable pub build_transition_context :
    WorkerLeaseStatus → WorkerLeaseStatus → WorkerLeaseTransitionContext
build_transition_context current target =
    if same target completing
    then record empty_context { completion_signal_received = some true }
    else if same current starting && same target running
    then record empty_context { first_heartbeat_received = some true }
    else record empty_context { heartbeat_received = some true }

-- `is_completing` is the parameter `completing` with its default `false`.
pub record ReceiveHeartbeatParams : Type 0 where
  pub lease_id : ℕ
  pub is_completing : Bool
  pub grace_period_seconds : Option ℕ
  pub worker_metadata : Option String
  pub actor : ActorInfo

pub record ReceiveHeartbeatResult : Type 0 where
  pub lease : LeaseRow
  pub previous_status : WorkerLeaseStatus
  pub audit_event : AuditEvent
  -- What is emitted after the commit.
  pub events : List DomainEvent

-- `expiresAt` of the new row: the later of the old one and the end of the grace period.
unfoldable pub extended_expiry : ℕ → ReceiveHeartbeatParams → LeaseRow → ℕ
extended_expiry now p lease = elim p.grace_period_seconds [
  | none ↦ lease.expires_at
  | some grace ↦
      if p.is_completing && ltb 0 grace && ltb (lease.expires_at * 1000) (now + grace * 1000)
      then (now + grace * 1000) / 1000
      else lease.expires_at
]

unfoldable pub set_heartbeat : ℕ → ReceiveHeartbeatParams → LeaseRow → LeaseRow
unfolding extended_expiry
set_heartbeat now p lease = record lease {
  status = compute_target_status lease.status p.is_completing;
  heartbeat_at = some (now / 1000);
  expires_at = extended_expiry now p lease;
}

abbrev pub heartbeat_audit : ReceiveHeartbeatParams → LeaseRow → LeaseRow → AuditEvent
heartbeat_audit p lease updated = record {
  entity_type = EntityType.task_lease;
  entity_id = p.lease_id;
  event_type = if p.is_completing then "lease.completing" else "lease.heartbeat";
  actor = p.actor;
  old_state = AuditState.heartbeat lease.status lease.heartbeat_at lease.expires_at;
  new_state = AuditState.heartbeat updated.status updated.heartbeat_at updated.expires_at;
  metadata = p.worker_metadata;
}

-- Steps 2 to 4.
unfoldable pub check_heartbeat : ReceiveHeartbeatParams → LeaseRow → Result (Unit {0})
unfolding is_receivable
check_heartbeat p lease = do
  unless_throw (is_receivable lease.status) (ServiceError.lease_not_active p.lease_id lease.status)
  let target = compute_target_status lease.status p.is_completing
  let validation =
      validate_worker_lease_transition lease.status target
        (build_transition_context lease.status target)
  unless_throw validation.valid (
      ServiceError.invalid_transition EntityType.task_lease p.lease_id
        (Status.of_lease lease.status) (Status.of_lease target) validation.reason)

-- `now` is what the clock gives.
unfoldable pub receive_heartbeat :
    ℕ → ReceiveHeartbeatParams → Tables → Result (Tables × ReceiveHeartbeatResult)
receive_heartbeat now p db = do
  lease ←
      or_throw (find_lease p.lease_id db)
        (ServiceError.entity_not_found EntityType.task_lease p.lease_id)
  check_heartbeat p lease
  updated ← update_lease p.lease_id lease.status (set_heartbeat now p) db
  let audit = heartbeat_audit p lease updated.1
  ok (
    record_audit audit updated.0,
    record {
      lease = updated.1;
      previous_status = lease.status;
      audit_event = audit;
      events = DomainEvent.lease_transitioned p.lease_id p.actor lease.status updated.1.status ∷ [];
    },
  )

pub record StalenessPolicy : Type 0 where
  pub heartbeat_interval_seconds : ℕ
  pub missed_heartbeat_threshold : ℕ
  pub grace_period_seconds : ℕ

abbrev pub staleness_window_ms : StalenessPolicy → ℕ
staleness_window_ms policy =
    (policy.heartbeat_interval_seconds * policy.missed_heartbeat_threshold
      + policy.grace_period_seconds)
    * 1000

-- `COALESCE(heartbeat_at, leased_at)`.
abbrev pub effective_heartbeat : LeaseRow → ℕ
effective_heartbeat row = elim row.heartbeat_at [ none ↦ row.leased_at | some at ↦ at ]

-- `x < floor((now - window) / 1000)`, which is `(x + 1) * 1000 ≤ now - window`, without a difference
-- that could be negative.
unfoldable pub is_heartbeat_stale : ℕ → StalenessPolicy → LeaseRow → Bool
is_heartbeat_stale now policy row =
    any (same row.status) (starting ∷ running ∷ heartbeating ∷ [])
    && leb ((effective_heartbeat row + 1) * 1000 + staleness_window_ms policy) now

unfoldable pub is_ttl_stale : ℕ → LeaseRow → Bool
is_ttl_stale now row =
    any (same row.status) (leased ∷ starting ∷ running ∷ heartbeating ∷ [])
    && ltb row.expires_at (now / 1000)

-- `findStaleLeases`: the union of the two queries holds each row once; its order is left out.
unfoldable pub find_stale_leases : ℕ → StalenessPolicy → Tables → List LeaseRow
unfolding is_heartbeat_stale is_ttl_stale
find_stale_leases now policy db =
    filterb (λ row. is_heartbeat_stale now policy row || is_ttl_stale now row) db.leases

unfoldable pub classify_stale_record : ℕ → LeaseRow → LeaseRow × ReclaimReason
classify_stale_record now row = (
  row,
  if ltb (row.expires_at * 1000) now
      then ReclaimReason.ttl_expired
      else ReclaimReason.missed_heartbeats,
)

unfoldable pub detect_stale_leases : ℕ → StalenessPolicy → Tables → List (LeaseRow × ReclaimReason)
unfolding find_stale_leases classify_stale_record
detect_stale_leases now policy db =
    map (classify_stale_record now) (find_stale_leases now policy db)
