-- ===== src/Tui.antt =====
-- internal/tui: the rows that the views list, and what the keys do to the model.
pub mod Text
pub mod Rows
pub mod Tables
pub mod Tree
pub mod Keys
pub mod Updates
