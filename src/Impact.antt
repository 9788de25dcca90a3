-- ===== src/Impact.antt =====
-- packages/domain/src/impact-consumer.ts: the consumers that a context shows.
pub mod Consumer
mod Kinds
mod Adding
pub mod Derived
mod Tests
