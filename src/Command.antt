-- ===== src/Command.antt =====
-- The command explainer, apps/web/src/modules/command.
pub mod Segments
pub mod Tokenize
mod Tests
