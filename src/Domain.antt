-- ===== src/Domain.antt =====
-- packages/domain: the enumerations, the four state machines and the policies.
pub mod Status
pub mod Guards
pub mod Replay
pub mod Machine
pub mod Policy
