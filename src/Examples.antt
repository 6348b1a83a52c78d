-- ===== src/Examples.antt =====
-- The theorems at work on one cluster, with a head and a worker that move from v1 to v2.
pub mod Data
pub mod Rollout
pub mod Added
pub mod Reports
pub mod Plans
pub mod Nodes
pub mod Tables
pub mod Rounds
pub mod Metrics
