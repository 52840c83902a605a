-- ===== src/Learning.antt =====
-- The learning evidence, app/services/learning/.
pub mod Evidence
pub mod Graph
pub mod Mastery
pub mod Session
