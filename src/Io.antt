-- ===== src/Io.antt =====
-- kernel/src/io: files and pipes.
pub mod Pipe
