-- ===== src/Deliveries.antt =====
-- src/modules/deliveries: what a rider does with a delivery.
pub mod Policy
pub mod Actions
pub mod Transition
