-- ===== src/Mm.antt =====
-- kernel/src/mm: the memory manager.
pub mod Phys
pub mod Vad
