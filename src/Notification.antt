-- ===== src/Notification.antt =====
-- What reaches the browsers: backend/app/modules/notification.
pub mod EventBus
