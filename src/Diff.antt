-- ===== src/Diff.antt =====
-- The text diff, apps/web/src/modules/diff/diff.ts.
pub mod Script
pub mod Myers
pub mod Lines
pub mod Hunks
pub mod Words
pub mod Compare
pub mod Unified
mod Tests
