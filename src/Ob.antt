-- ===== src/Ob.antt =====
-- kernel/src/ob: the object manager.
pub mod Object
pub mod Handle
