-- ===== src/Payments.antt =====
-- src/modules/payments: how a payment ends, and what that does to its order.
pub mod Lifecycle
pub mod Cash
pub mod Events
pub mod Webhooks
pub mod Replays
