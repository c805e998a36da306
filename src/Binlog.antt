-- ===== src/Binlog.antt =====
-- The package storage/binlog.
pub mod Entries
pub mod Times
pub mod Segment
pub mod Manager
mod Tests
