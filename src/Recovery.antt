-- ===== src/Recovery.antt =====
-- The recovery of a node from a backup bundle: scripts/node_recovery.py.
pub mod Paths
pub mod Bundle
pub mod Collected
pub mod Local
pub mod Manifest
pub mod Prepare
