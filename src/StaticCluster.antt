-- ===== src/StaticCluster.antt =====
-- internal/cluster/staticcluster: the plan of a static-node cluster, its recreate upgrade and its
-- status. Slices of node pointers are lists of `Option StaticNode`, nil elements included.
pub mod Names
pub mod Plan
pub mod Observed
pub mod Upgrade
pub mod Messages
pub mod StatusText
pub mod Context
pub mod Status
pub mod Hashes
pub mod RayRuntime
pub mod Metrics
pub mod NodePlan
pub mod Planner
