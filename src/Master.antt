-- ===== src/Master.antt =====
-- The package cmd/master.
pub mod Topology
pub mod Stores
pub mod Allocation
pub mod Resize
mod Tests
