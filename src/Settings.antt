-- ===== src/Settings.antt =====
-- The settings page (web/src/settings).
pub mod Reorder
