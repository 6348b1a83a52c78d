-- ===== src/StaticCluster/Status/Alive.antt =====
-- When the reported status is Ready: the verification of Ray behind the aggregate.
use neutree.Prelude.{
  String, true, ◌||◌, Option, none, List, [], ◌∷◌, ◌≡◌, refl, ◌↔◌, all, contains, is_blank, arith,
  is_empty,
}
use neutree.Prelude.Sorting.{length-sort_texts}
use neutree.Api.StaticNode.{StaticNode}
use neutree.Api.StaticNodeCluster.{
  StaticNodeCluster, StaticNodeClusterStatus, StaticNodeClusterPhase, StaticNodeClusterNodeSpec,
}
use neutree.StaticCluster.Names.{cluster_nodes}
use neutree.StaticCluster.Plan.{DesiredNodePlan}
use neutree.StaticCluster.Status.{
  Listing, listed, unreachable, alive_ips, missing_ips, missing_desired_ray_node_ips,
  verify_ray_cluster, require_ray_cluster_ready, aggregate,
}
use neutree.StaticCluster.Status.Rounds.{reported}

missing_ips_cases :
    (nodes : List StaticNodeClusterNodeSpec) (alive : List String)
    → is_empty (missing_ips nodes alive)
      ≡ all (λ node. is_blank node.ip || contains alive node.ip) nodes
unfolding missing_ips
missing_ips_cases [] alive = refl
missing_ips_cases (node ∷ nodes) alive = ground (arith, missing_ips_cases nodes alive)

-- The dashboard answers, and lists as alive the address of every node of the spec that has one.
abbrev pub RayIsAlive : Option StaticNodeCluster → Listing → Type 0
RayIsAlive cluster (unreachable error) = ⊥
RayIsAlive cluster (listed nodes) =
    all (λ node. is_blank node.ip || contains (alive_ips nodes) node.ip) (cluster_nodes cluster)
    ≡ true

verify-RayIsAlive :
    (cluster : Option StaticNodeCluster) (listing : Listing)
    → (verify_ray_cluster cluster listing ≡ none) ↔ RayIsAlive cluster listing
unfolding verify_ray_cluster missing_desired_ray_node_ips
verify-RayIsAlive cluster (unreachable error) = (λ h. cc, λ h. absurd h)
verify-RayIsAlive cluster (listed nodes) =
    let missing = missing_ips (cluster_nodes cluster) (alive_ips nodes) in
    let cases = missing_ips_cases (cluster_nodes cluster) (alive_ips nodes) in
    let sorted = length-sort_texts missing in
    (λ h. ground (arith, cases, sorted), λ h. ground (arith, cases, sorted))

require-ready_iff :
    (cluster : Option StaticNodeCluster) (listing : Listing) (status : StaticNodeClusterStatus)
    → ((require_ray_cluster_ready cluster listing status).phase ≡ StaticNodeClusterPhase.ready) ↔ (
        (status.phase ≡ StaticNodeClusterPhase.ready) × (verify_ray_cluster cluster listing ≡ none))
unfolding require_ray_cluster_ready
require-ready_iff cluster listing status =
    (λ h. (ground arith, ground arith), λ (a, b). ground arith)

-- A cluster is reported Ready exactly when its nodes make it so and Ray itself is verified alive.
pub reported-ready_iff :
    (cluster : Option StaticNodeCluster) (nodes : List (Option StaticNode))
    (plans : List DesiredNodePlan) (listing : Listing)
    → ((reported cluster nodes plans listing).phase ≡ StaticNodeClusterPhase.ready) ↔ (
        ((aggregate cluster nodes plans).phase ≡ StaticNodeClusterPhase.ready)
        × RayIsAlive cluster listing)
reported-ready_iff cluster nodes plans listing =
    let required = require-ready_iff cluster listing (aggregate cluster nodes plans) in
    let alive = verify-RayIsAlive cluster listing in
    (
      λ h. ((required.0 h).0, alive.0 (required.0 h).1),
      λ (ready, ray). required.1 (ready, alive.1 ray),
    )
