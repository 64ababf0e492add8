-- ===== src/Notifications.antt =====
-- src/notifications/notification_bridge.{hpp,cpp}: notifications of the desktop that are read from
-- D-Bus, and the command that shows one of the phone.
pub mod Monitor
pub mod Show
mod Tests
