-- ===== src/Carts.antt =====
-- The carts: carts/services/cart-mutation.service.ts, carts/services/cart-pricing.service.ts and
-- carts/repositories/carts.repository.ts.
pub mod Selection
pub mod Choices
pub mod Lookup
pub mod Mutation
pub mod Totals
pub mod Consistency
pub mod Requests
pub mod Kept
