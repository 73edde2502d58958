-- ===== src/Proc.antt =====
-- kernel/proc: processes and threads.
pub mod Threads
