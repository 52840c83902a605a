-- ===== src/Srs.antt =====
-- Spaced repetition, app/services/srs/.
pub mod Scheduler
pub mod Sync
