-- ===== src/Ke.antt =====
-- kernel/src/ke: the kernel core.
pub mod Dpc
pub mod Ready
pub mod Wait
