-- ===== src/Service/Completion.antt =====
-- packages/application/src/services/graceful-completion.service.ts. Here a rejection writes an audit
-- event and then throws, so the body of the transaction gives its tables in both cases, and the
-- transaction drops them when it throws. The clock gives milliseconds, columns hold seconds.
pub mod Deadline
use copilot_factory.Prelude.{
  ℕ, ◌+◌, ◌*◌, Bool, true, false, not, ◌==◌, ltb, any, Option, none, some, String, List, [], ◌∷◌,
  same, if◌then◌else◌,
}
use copilot_factory.Domain.Status.Lease.{
  WorkerLeaseStatus, completing, timed_out, lease_status_enum,
}
use copilot_factory.Service.Errors.{Result, ok, throw, EntityType, ServiceError}
use copilot_factory.Service.Tables.{
  LeaseRow, ActorInfo, AuditEvent, AuditState, DomainEvent, Tables, find_lease, record_audit,
}

-- `RESULT_ACCEPTING_STATES.has(status)`.
unfoldable pub is_accepting : WorkerLeaseStatus → Bool
is_accepting status = any (same status) (completing ∷ timed_out ∷ [])

pub record AcceptResultParams : Type 0 where
  pub lease_id : ℕ
  pub worker_id : ℕ
  pub grace_period_seconds : ℕ
  pub actor : ActorInfo
  pub metadata : Option String

pub record AcceptResultResult : Type 0 where
  pub lease : LeaseRow
  pub late_acceptance : Bool
  pub audit_event : AuditEvent
  -- What is emitted after the commit.
  pub events : List DomainEvent

unfoldable pub compute_grace_deadline : LeaseRow → ℕ → ℕ
compute_grace_deadline lease grace =
    if same lease.status completing
    then lease.expires_at * 1000
    else lease.expires_at * 1000 + grace * 1000

abbrev pub result_audit : AcceptResultParams → LeaseRow → String → AuditState → AuditEvent
result_audit p lease event_type new_state = record {
  entity_type = EntityType.task_lease;
  entity_id = p.lease_id;
  event_type = event_type;
  actor = p.actor;
  old_state = AuditState.result_before lease.status lease.expires_at;
  new_state = new_state;
  metadata = p.metadata;
}

abbrev pub acceptance : ℕ → AcceptResultParams → LeaseRow → AcceptResultResult
acceptance now p lease =
    let late = same lease.status timed_out in
    record {
      lease = lease;
      late_acceptance = late;
      audit_event =
          result_audit p lease
            (if late then "lease.result-accepted-late" else "lease.result-accepted")
            (AuditState.result_accepted late (compute_grace_deadline lease p.grace_period_seconds)
              now);
      events = DomainEvent.lease_transitioned p.lease_id p.actor lease.status lease.status ∷ [];
    }

-- Steps 4 and 5: the tables when the body returns or throws.
unfoldable pub judge_result :
    ℕ → AcceptResultParams → LeaseRow → Tables → Tables × Result AcceptResultResult
judge_result now p lease db =
    let deadline = compute_grace_deadline lease p.grace_period_seconds in
    if ltb deadline now
    then (
      record_audit
          (result_audit p lease "lease.result-rejected" (AuditState.result_rejected deadline now))
          db,
      throw (ServiceError.grace_period_expired p.lease_id deadline now),
    )
    else (record_audit (acceptance now p lease).audit_event db, ok (acceptance now p lease))

-- The body of the transaction.
unfoldable pub accept_body : ℕ → AcceptResultParams → Tables → Tables × Result AcceptResultResult
unfolding is_accepting
accept_body now p db = elim (find_lease p.lease_id db) [
  | none ↦ (db, throw (ServiceError.entity_not_found EntityType.task_lease p.lease_id))
  | some lease ↦
      if not (lease.worker_id == p.worker_id)
      then (db, throw (ServiceError.worker_mismatch p.lease_id lease.worker_id p.worker_id))
      else if not (is_accepting lease.status)
      then (db, throw (ServiceError.lease_not_accepting_results p.lease_id lease.status))
      else judge_result now p lease db
]

-- `runInTransaction`: a throw rolls back.
abbrev pub commit {ℓ} : {A : Type ℓ} → Tables → Tables × Result A → Tables × Result A
commit before (written, ok a) = (written, ok a)
commit before (written, throw e) = (before, throw e)

unfoldable pub accept_result : ℕ → AcceptResultParams → Tables → Tables × Result AcceptResultResult
accept_result now p db = commit db (accept_body now p db)
