-- ===== src/Storage.antt =====
-- The package storage/rocks.
pub mod Rocks
pub mod PrefixScan
pub mod FullScan
pub mod Filter
mod Tests
mod FilterTests
