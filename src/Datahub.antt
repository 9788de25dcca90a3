-- ===== src/Datahub.antt =====
-- packages/datahub/src: the reading of DataHub.
pub mod Pagination
pub mod Pages
mod Tests
