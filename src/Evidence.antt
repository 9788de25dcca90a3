-- ===== src/Evidence.antt =====
-- packages/domain/src/evidence.ts: the evidence that DataHub gives for a change, and the impact
-- context that holds it.
pub mod Items
pub mod Canonical
pub mod Identity
pub mod Shapes
pub mod Context
pub mod Bindings
pub mod Complete
pub mod Schema
pub mod Fixture
pub mod Sample
