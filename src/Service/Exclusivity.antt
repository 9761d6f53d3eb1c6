-- ===== src/Service/Exclusivity.antt =====
-- packages/application/src/services/lease.service.ts, heartbeat.service.ts and
-- lease-reclaim.service.ts together: the table of leases over any sequence of their calls.
pub mod Completing
pub mod Retries
pub mod Stale
use copilot_factory.Prelude.{
  ℕ, Bool, true, false, ◌&&◌, ◌||◌, ◌==◌, ==_iff, Option, none, some, List, [], ◌∷◌, ◌++◌, any,
  push, length, filterb, find_first, find_first-any, replace_first, if◌then◌else◌, ◌≡◌, ◌≢◌, ◌≤◌,
  ◌⊎◌, inl, inr, refl, ap, sym, ◌∙◌, arith, Bool-cases,
}
use copilot_factory.Domain.Status.Lease.{WorkerLeaseStatus, idle, completing, lease_status_enum}
use copilot_factory.Service.Errors.{Result, ok, throw}
use copilot_factory.Service.Tables.{
  LeaseRow, Tables, ReclaimReason, missed_heartbeats, ttl_expired, worker_crashed, has_lease_id,
  is_active, is_active_for, find_active_by_task_id,
}
use copilot_factory.Service.Tables.Rows.{
  any-push, any-replace_first_kept, any-weaken, find_first-none,
}
use copilot_factory.Service.Tables.Exclusive.{IsExclusive, IsExclusive-replace_first, Keeps}
use copilot_factory.Service.Lease.{
  AcquireLeaseParams, LeaseAcquisitionResult, new_lease, acquire_lease,
}
use copilot_factory.Service.Lease.Acquire.{acquire_lease-IsExclusive, acquire_lease-Acquired}
use copilot_factory.Service.Heartbeat.{
  ReceiveHeartbeatParams, ReceiveHeartbeatResult, is_receivable, set_heartbeat, receive_heartbeat,
}
use copilot_factory.Service.Heartbeat.Beat.{receive_heartbeat-Beat}
use copilot_factory.Service.Reclaim.{
  ReclaimLeaseParams, ReclaimLeaseResult, is_reclaimable, determine_lease_target_state, end_lease,
  reclaim_lease,
}
use copilot_factory.Service.Reclaim.Outcome.{reclaim_lease-Reclaimed}

-- One call of a service; the identifier and the time are what the generator and the clock give.
pub data Call : Type 0 where
  acquire : ℕ → ℕ → AcquireLeaseParams → Call
  beat : ℕ → ReceiveHeartbeatParams → Call
  reclaim : ReclaimLeaseParams → Call

-- The tables after a call: those that it returns, or the old ones if it throws.
abbrev pub after {ℓ} : {R : Type ℓ} → Tables → Result (Tables × R) → Tables
after db (ok (db', r)) = db'
after db (throw e) = db

abbrev pub perform : Call → Tables → Tables
perform (acquire lease_id now p) db = after db (acquire_lease lease_id now p db)
perform (beat now p) db = after db (receive_heartbeat now p db)
perform (reclaim p) db = after db (reclaim_lease p db)

abbrev pub perform_all : List Call → Tables → Tables
perform_all [] db = db
perform_all (c ∷ calls) db = perform_all calls (perform c db)

receivable_active : (s : WorkerLeaseStatus) → is_receivable s ≡ true → is_active s ≡ true
unfolding is_receivable is_active
receivable_active idle h = absurd (ground arith)
receivable_active _ h = ground arith

set_heartbeat-Keeps :
    (now : ℕ) (p : ReceiveHeartbeatParams) (lease : LeaseRow)
    → is_receivable lease.status ≡ true
    → Keeps (set_heartbeat now p) lease
unfolding set_heartbeat
set_heartbeat-Keeps now p lease h = record {
  keeps_lease = refl;
  keeps_task = refl;
  keeps_end = λ a. receivable_active lease.status h;
}

ended_inactive : (reason : ReclaimReason) → is_active (determine_lease_target_state reason) ≡ false
unfolding is_active determine_lease_target_state
ended_inactive missed_heartbeats = refl
ended_inactive ttl_expired = refl
ended_inactive worker_crashed = refl

end_lease-Keeps : (reason : ReclaimReason) (lease : LeaseRow) → Keeps (end_lease reason) lease
end_lease-Keeps reason lease = record {
  keeps_lease = refl;
  keeps_task = refl;
  keeps_end = λ a. absurd (ground (arith, ended_inactive reason));
}

perform-IsExclusive :
    (c : Call) (db : Tables) → IsExclusive db.leases → IsExclusive (perform c db).leases
perform-IsExclusive (acquire lease_id now p) db h = go (acquire_lease lease_id now p db) refl
  where
    go :
        (r : Result (Tables × LeaseAcquisitionResult))
        → acquire_lease lease_id now p db ≡ r
        → IsExclusive (after db r).leases
    go (ok (db', r)) e = acquire_lease-IsExclusive lease_id now p db db' r e h
    go (throw e) k = h
perform-IsExclusive (beat now p) db h = go (receive_heartbeat now p db) refl
  where
    go :
        (r : Result (Tables × ReceiveHeartbeatResult))
        → receive_heartbeat now p db ≡ r
        → IsExclusive (after db r).leases
    go (ok w) e =
        let b = receive_heartbeat-Beat now p db w e in
        rw b.leases (
          IsExclusive-replace_first p.lease_id (set_heartbeat now p) db.leases b.lease b.found
            (set_heartbeat-Keeps now p b.lease b.receivable) h)
    go (throw e) k = h
perform-IsExclusive (reclaim p) db h = go (reclaim_lease p db) refl
  where
    go :
        (r : Result (Tables × ReclaimLeaseResult))
        → reclaim_lease p db ≡ r
        → IsExclusive (after db r).leases
    go (ok w) e =
        let b = reclaim_lease-Reclaimed p db w e in
        rw b.leases (
          IsExclusive-replace_first p.lease_id (end_lease p.reason) db.leases b.lease b.found
            (end_lease-Keeps p.reason b.lease) h)
    go (throw e) k = h

-- Whatever leases are acquired, kept alive and reclaimed, in any order and whether the calls return or
-- throw: lease identifiers stay unique, and no task has two active leases.
pub perform_all-IsExclusive :
    (calls : List Call) (db : Tables)
    → IsExclusive db.leases
    → IsExclusive (perform_all calls db).leases
perform_all-IsExclusive [] db h = h
perform_all-IsExclusive (c ∷ calls) db h =
    perform_all-IsExclusive calls (perform c db) (perform-IsExclusive c db h)
