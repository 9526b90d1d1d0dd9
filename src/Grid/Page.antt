-- ===== src/Grid/Page.antt =====
-- The state of the grid page and its handlers: grid/GridPage.tsx, without its markup.
pub mod LayoutSync
pub mod SessionSync
pub mod Screen
pub mod Header
mod Tests
