-- ===== src/Api.antt =====
-- The API workbench, apps/web/src/modules/api.
pub mod Policy
mod Tests
