-- ===== src/Git.antt =====
-- apps/web/src/modules/learning/git: the Git learning sandbox.
pub mod Model
pub mod Ancestry
pub mod Commands
pub mod Valid
pub mod Sessions
mod Tests
