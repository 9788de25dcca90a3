-- ===== src/Run.antt =====
-- packages/domain/src/run.ts: the life of a run as a validated stream of events.
pub mod Status
pub mod Graph
pub mod Events
pub mod Stream
pub mod Admission
pub mod Life
pub mod Fencing
pub mod Progress
pub mod Retries
pub mod Authorize
pub mod Ownership
pub mod Sample
mod Tests
