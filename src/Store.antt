-- ===== src/Store.antt =====
-- The package cmd/store.
pub mod Progress
pub mod MergeOperator
pub mod Shards
pub mod Process
pub mod Follow
pub mod Bootstrap
pub mod TailBinlog
pub mod Requests
mod Tests
mod ShardTests
mod ProgressTests
mod BootstrapTests
mod TailTests
