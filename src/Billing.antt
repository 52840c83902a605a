-- ===== src/Billing.antt =====
-- Billing, app/services/billing/ and the tiers of app/domain.py.
pub mod Tiers
pub mod Calendar
pub mod Settlement
pub mod Store
pub mod Service
pub mod Webhook
pub mod Soundness
pub mod Payments
