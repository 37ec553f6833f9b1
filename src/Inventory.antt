-- ===== src/Inventory.antt =====
-- src/modules/menus: stock and its reservation.
pub mod Stock
pub mod Levels
pub mod Lots
pub mod Alerts
pub mod Reserve
pub mod Demand
pub mod Conservation
pub mod LotUse
pub mod Restoration
pub mod Expiry
pub mod Untouched
