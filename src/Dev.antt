-- ===== src/Dev.antt =====
-- kernel/dev: devices.
pub mod Keyboard
