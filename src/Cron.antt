-- ===== src/Cron.antt =====
-- The cron visualizer, apps/web/src/modules/cron/cron.ts.
pub mod Model
pub mod Parse
pub mod Describe
pub mod Schedule
mod Tests
