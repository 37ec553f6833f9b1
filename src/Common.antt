-- ===== src/Common.antt =====
-- src/common: the rate limiter's fallback.
pub mod Throttle
pub mod Windows
pub mod Limits
