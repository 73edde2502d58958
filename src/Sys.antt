-- ===== src/Sys.antt =====
-- kernel/sys: the terminal.
pub mod Terminal
pub mod Line
