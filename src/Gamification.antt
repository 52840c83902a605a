-- ===== src/Gamification.antt =====
-- The gamification services, app/services/gamification/: what earns XP, the level curve, the daily
-- quests and the streaks.
pub mod Rules
pub mod Ledger
pub mod Levels
pub mod Quests
pub mod Streaks
pub mod Improvement
