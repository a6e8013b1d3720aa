-- ===== src/Panel.antt =====
-- The x-ui panel of a server: src/xui.
pub mod Session
pub mod Backups
