-- ===== src/Planner.antt =====
-- The study planner, app/services/planner/: days, session slots and the student's timetable.
pub mod Days
pub mod Slots
pub mod Timetable
pub mod PlanMode
pub mod TermContext
pub mod Topics
pub mod Layout
pub mod Selection
