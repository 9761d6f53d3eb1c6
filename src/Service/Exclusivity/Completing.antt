-- ===== src/Service/Exclusivity/Completing.antt =====
-- A lease that is COMPLETING under the services of packages/application/src/services: `findActiveByTaskId`
-- of the lease repository counts it as active.
use copilot_factory.Prelude.{
  same, ℕ, Bool, true, false, ◌&&◌, ◌==◌, List, [], ◌∷◌, any, ◌≡◌, refl, arith,
}
use copilot_factory.Domain.Status.Lease.{WorkerLeaseStatus, idle, completing, lease_status_enum}
use copilot_factory.Service.Errors.{Result, ok, throw}
use copilot_factory.Service.Tables.{LeaseRow, Tables, has_lease_id, is_active, is_active_for}
use copilot_factory.Service.Tables.Rows.{
  any-push, any-replace_first_kept, any-weaken, find_first-none,
}
use copilot_factory.Service.Lease.{
  AcquireLeaseParams, LeaseAcquisitionResult, new_lease, acquire_lease,
}
use copilot_factory.Service.Lease.Acquire.{acquire_lease-Acquired}
use copilot_factory.Service.Heartbeat.{
  ReceiveHeartbeatResult, is_receivable, set_heartbeat, receive_heartbeat,
}
use copilot_factory.Service.Heartbeat.Beat.{receive_heartbeat-Beat}
use copilot_factory.Service.Reclaim.{ReclaimLeaseResult, is_reclaimable, end_lease, reclaim_lease}
use copilot_factory.Service.Reclaim.Outcome.{reclaim_lease-Reclaimed}
use copilot_factory.Service.Exclusivity.{Call, acquire, beat, reclaim, after, perform, perform_all}

-- A lease of the task that is COMPLETING.
abbrev pub completes : ℕ → LeaseRow → Bool
completes task_id row = row.task_id == task_id && same row.status completing

receivable_completes :
    (t id : ℕ) (s : WorkerLeaseStatus)
    → is_receivable s ≡ true
    → (id == t && same s completing) ≡ false
unfolding is_receivable
receivable_completes t id idle h = absurd (ground arith)
receivable_completes t id _ h = ground arith

reclaimable_completes :
    (t id : ℕ) (s : WorkerLeaseStatus)
    → is_reclaimable s ≡ true
    → (id == t && same s completing) ≡ false
unfolding is_reclaimable
reclaimable_completes t id idle h = absurd (ground arith)
reclaimable_completes t id _ h = ground arith

completing_active : (s : WorkerLeaseStatus) → same s completing ≡ true → is_active s ≡ true
unfolding is_active
completing_active idle h = absurd (cc)
completing_active _ h = ground arith

perform-completes :
    (t : ℕ) (c : Call) (db : Tables)
    → any (completes t) db.leases ≡ true
    → any (completes t) (perform c db).leases ≡ true
perform-completes t (acquire lease_id now p) db h = go (acquire_lease lease_id now p db) refl
  where
    go :
        (r : Result (Tables × LeaseAcquisitionResult))
        → acquire_lease lease_id now p db ≡ r
        → any (completes t) (after db r).leases ≡ true
    go (ok (db', r)) e =
        let a = acquire_lease-Acquired lease_id now p db db' r e in
        rw a.leases (ground (arith, any-push (completes t) db.leases (new_lease lease_id now p)))
    go (throw e) k = h
perform-completes t (beat now p) db h = go (receive_heartbeat now p db) refl
  where
    go :
        (r : Result (Tables × ReceiveHeartbeatResult))
        → receive_heartbeat now p db ≡ r
        → any (completes t) (after db r).leases ≡ true
    go (ok w) e =
        let b = receive_heartbeat-Beat now p db w e in
        rw b.leases (
          any-replace_first_kept (has_lease_id p.lease_id) (completes t) (set_heartbeat now p)
            db.leases b.lease b.found
            (receivable_completes t b.lease.task_id b.lease.status b.receivable) h)
    go (throw e) k = h
perform-completes t (reclaim p) db h = go (reclaim_lease p db) refl
  where
    go :
        (r : Result (Tables × ReclaimLeaseResult))
        → reclaim_lease p db ≡ r
        → any (completes t) (after db r).leases ≡ true
    go (ok w) e =
        let b = reclaim_lease-Reclaimed p db w e in
        rw b.leases (
          any-replace_first_kept (has_lease_id p.lease_id) (completes t) (end_lease p.reason)
            db.leases b.lease b.found
            (reclaimable_completes t b.lease.task_id b.lease.status b.reclaimable) h)
    go (throw e) k = h

perform_all-completes :
    (t : ℕ) (calls : List Call) (db : Tables)
    → any (completes t) db.leases ≡ true
    → any (completes t) (perform_all calls db).leases ≡ true
perform_all-completes t [] db h = h
perform_all-completes t (c ∷ calls) db h =
    perform_all-completes t calls (perform c db) (perform-completes t c db h)

-- Once a lease of a task is COMPLETING, no sequence of calls of the three services makes it possible
-- to acquire another lease of that task.
pub completing_blocks :
    (calls : List Call) (db : Tables) (lease_id now : ℕ) (p : AcquireLeaseParams)
    → any (completes p.task_id) db.leases ≡ true
    → ¬ (
        (w : Tables × LeaseAcquisitionResult) × (acquire_lease lease_id now p (perform_all calls db)
          ≡ ok w))
completing_blocks calls db lease_id now p h (w, e) =
    let later = perform_all calls db in
    let a = acquire_lease-Acquired lease_id now p later w.0 w.1 e in
    let still = perform_all-completes p.task_id calls db h in
    let active =
      any-weaken (completes p.task_id) (is_active_for p.task_id) later.leases weaken still in
    absurd (ground (arith, active, find_first-none (is_active_for p.task_id) later.leases a.free))
  where
    weaken : (x : LeaseRow) → completes p.task_id x ≡ true → is_active_for p.task_id x ≡ true
    weaken x k = ground (arith, completing_active x.status)
