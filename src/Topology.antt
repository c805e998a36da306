-- ===== src/Topology.antt =====
-- The package topology.
pub mod Ring
pub mod Bootstrap
pub mod Jump
pub mod Groups
pub mod Cluster
pub mod Listener
mod Tests
mod ListenerTests
