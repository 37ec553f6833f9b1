-- ===== src/Orders.antt =====
-- src/modules/orders: policies, handlers and what they keep.
pub mod View
pub mod Policy
pub mod Actions
pub mod Effects
pub mod Merchant
pub mod Cancellation
pub mod Admin
pub mod Availability
pub mod Settlement
pub mod Outcome
pub mod Pickup
