-- ===== src/Grid.antt =====
-- The grid (web/src/grid).
pub mod Numbers
pub mod Sizes
pub mod Model
pub mod Types
pub mod View
pub mod Page
pub mod Launcher
pub mod Picker
pub mod Dividers
pub mod DirFilter
pub mod Mobile
pub mod MobileView
pub mod Ended
mod Samples
mod Tests
