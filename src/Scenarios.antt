-- ===== src/Scenarios.antt =====
-- Concrete runs of the modelled code, at which its theorems are applied.
pub mod Tasks
pub mod Records
pub mod Policies
pub mod Dependencies
pub mod Leases
pub mod Jobs
pub mod Scheduling
pub mod Ticks
pub mod Files
pub mod Profiles
pub mod Transitions
