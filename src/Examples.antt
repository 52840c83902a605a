-- ===== src/Examples.antt =====
-- Runs of the modelled code at concrete inputs.
mod Planner
mod Gamification
mod Srs
mod Billing
mod Learning
mod Payments
mod RateLimit
mod Layout
mod Session
mod Auth
