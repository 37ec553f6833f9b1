-- ===== src/Refunds.antt =====
-- src/modules/refunds: requesting a refund and finishing it.
pub mod Operations
pub mod Balance
pub mod EventStates
pub mod Events
pub mod Webhooks
