-- ===== src/Fs.antt =====
-- go/fs.go: the in-memory file system, by which a build runs in tests and in a check.
pub mod Path
pub mod Mem
