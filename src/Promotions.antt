-- ===== src/Promotions.antt =====
-- Promotion codes: promotions/services/promotion-pricing.service.ts.
pub mod Pricing
pub mod Discounts
