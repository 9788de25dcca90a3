-- ===== src/Risk.antt =====
-- packages/domain/src/risk.ts: the deterministic decision on a change.
pub mod Policy
pub mod Evaluate
pub mod Reasons
pub mod Relevance
pub mod Grounded
pub mod Decision
pub mod Binding
mod Tests
pub mod Picked
pub mod Returns
pub mod Total
