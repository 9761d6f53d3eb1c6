-- ===== src/Domain/Status.antt =====
-- packages/domain/src/enums.ts: the states that the four machines move through, in the order of
-- `Object.values`.
pub mod Task
pub mod Lease
pub mod Review
pub mod Queue
pub mod Job
pub mod Text
