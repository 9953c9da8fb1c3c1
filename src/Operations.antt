-- ===== src/Operations.antt =====
-- tools/app_support: how a command reports progress and learns that it is to stop.
pub mod Progress
pub mod Cancel
pub mod Identity
mod Tests
