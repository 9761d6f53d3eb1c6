-- ===== src/Domain/Machine.antt =====
-- packages/domain/src/state-machines: the guarded transitions of tasks, leases, review cycles and
-- merge queue items.
pub mod Task
pub mod Lease
pub mod Review
pub mod Queue
