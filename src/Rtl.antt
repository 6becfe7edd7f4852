-- ===== src/Rtl.antt =====
-- kernel/src/rtl: the runtime library.
pub mod Bitmap
pub mod Strings
