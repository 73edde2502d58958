-- ===== src/Rt.antt =====
-- kernel/rt: the runtime library.
pub mod Text
pub mod Objects
pub mod Heap
