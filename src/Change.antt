-- ===== src/Change.antt =====
-- packages/domain/src/change.ts: the proposed change of a schema.
pub mod Proposed
