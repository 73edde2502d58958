-- ===== src/Fs.antt =====
-- kernel/fs: the file systems.
pub mod Blocks
pub mod Cache
