-- ===== src/Domain/Status/Lease.antt =====
-- packages/domain/src/enums.ts, `WorkerLeaseStatus`.
use copilot_factory.Prelude.{ℕ, ◌≡◌, refl, some, get_elem?, Enum, List, [], ◌∷◌}

-- In the order of `Object.values(WorkerLeaseStatus)`.
pub data WorkerLeaseStatus : Type 0 where
  idle leased starting running heartbeating completing timed_out crashed : WorkerLeaseStatus
  reclaimed : WorkerLeaseStatus

abbrev pub lease_statuses : List WorkerLeaseStatus
lease_statuses =
    idle ∷ leased ∷ starting ∷ running ∷ heartbeating ∷ completing ∷ timed_out ∷ crashed ∷ reclaimed
    ∷ []

abbrev pub lease_status_index : WorkerLeaseStatus → ℕ
lease_status_index idle = 0
lease_status_index leased = 1
lease_status_index starting = 2
lease_status_index running = 3
lease_status_index heartbeating = 4
lease_status_index completing = 5
lease_status_index timed_out = 6
lease_status_index crashed = 7
lease_status_index reclaimed = 8

pub lease_status_at_index :
    (s : WorkerLeaseStatus) → get_elem? lease_statuses (lease_status_index s) ≡ some s
lease_status_at_index idle = refl
lease_status_at_index leased = refl
lease_status_at_index starting = refl
lease_status_at_index running = refl
lease_status_at_index heartbeating = refl
lease_status_at_index completing = refl
lease_status_at_index timed_out = refl
lease_status_at_index crashed = refl
lease_status_at_index reclaimed = refl

instance abbrev pub lease_status_enum : Enum WorkerLeaseStatus
lease_status_enum = record {
  values = lease_statuses;
  index = lease_status_index;
  value-index = lease_status_at_index;
}
