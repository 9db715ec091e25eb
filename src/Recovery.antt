-- ===== src/Recovery.antt =====
-- What verification and restore (companion/verify.go, companion/restore.go) make of a directory that
-- the archive writer (companion/archive.go) left.
pub mod Served
pub mod Verified
pub mod Restored
pub mod Whole
pub mod Working
