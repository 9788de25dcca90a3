-- ===== src/Store.antt =====
-- packages/db/src/store.ts: the runs, their events and their leases in the database, and the
-- operations of `RunStore` on them.
pub mod Rows
pub mod Events
pub mod Leases
pub mod Claims
pub mod Retry
pub mod Transition
pub mod Records
pub mod Replay
pub mod Agree
pub mod Sound
pub mod Effects
pub mod Mirror
pub mod Preserve
pub mod Expiring
pub mod Claiming
pub mod Stale
pub mod Retrying
pub mod Creating
pub mod Idempotent
pub mod Transiting
pub mod Recording
pub mod Appending
pub mod History
pub mod Reached
pub mod Versions
pub mod Queue
mod Sample
mod Tests
