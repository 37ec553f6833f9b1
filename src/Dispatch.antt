-- ===== src/Dispatch.antt =====
-- src/modules/dispatch: finding a rider for an order.
pub mod Eligibility
pub mod Auto
pub mod Choice
pub mod Offers
pub mod Booking
pub mod GivingUp
pub mod Assignment
