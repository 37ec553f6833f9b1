-- ===== src/Checkout.antt =====
-- The checkout: the services of checkout/services and payments/services/checkout-payment-intent.service.ts.
pub mod Validation
pub mod Context
pub mod Amounts
pub mod Lines
pub mod Intent
pub mod Submission
pub mod Placed
pub mod Refused
