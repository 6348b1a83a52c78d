-- ===== src/Controllers.antt =====
-- internal controllers of static nodes and their clusters.
pub mod Helpers
pub mod Cluster
pub mod Keeping
pub mod Rounds
pub mod Isolation
pub mod Removal
pub mod Node
