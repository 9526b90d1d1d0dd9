-- ===== src/Term.antt =====
-- The terminal tile (web/src/term).
pub mod ReflowGate
pub mod Tile
pub mod TouchScroll
pub mod Unwrap
pub mod Upload
pub mod Wrap
pub mod Links
