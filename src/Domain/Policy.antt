-- ===== src/Domain/Policy.antt =====
-- packages/domain/src/policies, conflict-priority.ts and workspace-cleanup-policy.ts: decisions that
-- the services take from configuration.
pub mod Retry
pub mod Paths
pub mod FileScope
pub mod Validation
pub mod Escalation
pub mod Conflict
pub mod Cleanup
