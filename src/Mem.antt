-- ===== src/Mem.antt =====
-- kernel/mem: memory.
pub mod Paging
pub mod Ranges
pub mod Pages
