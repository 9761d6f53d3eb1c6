-- ===== src/Service.antt =====
-- packages/application/src/services: what the control plane does, each call inside one transaction.
pub mod Errors
pub mod Exclusivity
pub mod Completion
pub mod Dependency
pub mod TaskOutcome
pub mod Tables
pub mod Heartbeat
pub mod Jobs
pub mod JobTable
pub mod Lease
pub mod Readiness
pub mod Reclaim
pub mod Scheduler
pub mod Transition
