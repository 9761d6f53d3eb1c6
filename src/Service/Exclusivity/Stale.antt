-- ===== src/Service/Exclusivity/Stale.antt =====
-- The leases that `detectStaleLeases` of packages/application/src/services/heartbeat.service.ts reports,
-- and those that `reclaimLease` of lease-reclaim.service.ts takes.
use copilot_factory.Prelude.{ℕ, true, ◌||◌, any, same, ◌≡◌, ◌≢◌, ◌↔◌, refl, arith, Bool, [], ◌∷◌}
use copilot_factory.Domain.Status.Lease.{
  WorkerLeaseStatus, idle, leased, starting, running, heartbeating, lease_status_enum,
}
use copilot_factory.Service.Errors.{ok}
use copilot_factory.Service.Tables.{LeaseRow}
use copilot_factory.Service.Heartbeat.{StalenessPolicy, is_heartbeat_stale, is_ttl_stale}
use copilot_factory.Service.Reclaim.{ReclaimLeaseParams, is_reclaimable, check_reclaim}
use copilot_factory.Service.Reclaim.Outcome.{check_reclaim_iff}

abbrev is_watched : WorkerLeaseStatus → Bool
is_watched s = any (same s) (leased ∷ starting ∷ running ∷ heartbeating ∷ [])

stale_watched :
    (now : ℕ) (policy : StalenessPolicy) (row : LeaseRow)
    → (is_heartbeat_stale now policy row || is_ttl_stale now row) ≡ true
    → is_watched row.status ≡ true
unfolding is_heartbeat_stale is_ttl_stale
stale_watched now policy row h = ground arith

watched_reclaimable :
    (s : WorkerLeaseStatus) → is_watched s ≡ true → (is_reclaimable s ≡ true) ↔ (s ≢ leased)
unfolding is_reclaimable
watched_reclaimable idle h = absurd (ground arith)
watched_reclaimable leased h = (λ k. cc, λ k. absurd (k refl))
watched_reclaimable starting h = (λ k e. cc, λ k. refl)
watched_reclaimable running h = (λ k e. cc, λ k. refl)
watched_reclaimable heartbeating h = (λ k e. cc, λ k. refl)
watched_reclaimable _ h = absurd (ground arith)

-- A lease that is stale by either query passes the checks of `reclaimLease` exactly when it is not
-- LEASED: a worker that never started keeps its expired lease.
pub stale-check_reclaim :
    (now : ℕ) (policy : StalenessPolicy) (row : LeaseRow) (p : ReclaimLeaseParams)
    → (is_heartbeat_stale now policy row || is_ttl_stale now row) ≡ true
    → (check_reclaim p row ≡ ok tt) ↔ (row.status ≢ leased)
stale-check_reclaim now policy row p h =
    let w = watched_reclaimable row.status (stale_watched now policy row h) in
    let c = check_reclaim_iff p row in (λ k. w.0 (c.0 k), λ k. c.1 (w.1 k))
