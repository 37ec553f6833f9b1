-- ===== src/Notifications.antt =====
-- Notifications: notifications/utils/notification-preference-time.util.ts.
pub mod QuietHours
pub mod Boundaries
