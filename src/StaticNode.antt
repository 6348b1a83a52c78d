-- ===== src/StaticNode.antt =====
-- internal/cluster/staticnode: what the reconciler of one node does, and the status it reports.
pub mod Status
pub mod Head
pub mod Devices
pub mod Removal
pub mod Host
pub mod Ends
pub mod RunCommand
pub mod Docker
pub mod Quoting
pub mod Login
pub mod Warm
pub mod Health
pub mod Components
pub mod Cleanup
