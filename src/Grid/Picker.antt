-- ===== src/Grid/Picker.antt =====
-- Choosing a directory: grid/DirPicker.tsx, the rows that it shows, and its state and keys.
pub mod Rows
pub mod State
pub mod Paths
mod Tests
