-- ===== src/Flow.antt =====
-- How the status of an order moves: the diagram of the transitions that the handlers of
-- src/modules/orders, deliveries and dispatch and of src/jobs make, and the history that they keep.
pub mod Diagram
pub mod Progress
pub mod Rules
pub mod MerchantPolicies
pub mod Merchant
pub mod Cancellation
pub mod RiderPolicies
pub mod Riders
pub mod Dispatch
pub mod Payments
pub mod Admin
pub mod Checkout
pub mod Timeouts
pub mod Commands
