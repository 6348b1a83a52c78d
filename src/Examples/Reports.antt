-- ===== src/Examples/Reports.antt =====
-- The status of the cluster.
use neutree.Prelude.{none}
use neutree.Prelude.{
  true, false, Option, some, List, [], ◌∷◌, ◌≡◌, ◌≢◌, refl, ◌↔◌, ◌≤◌, arith, ap, sym, ◌∙◌,
}
use neutree.Api.StaticNodeCluster.{StaticNodeCluster, StaticNodeClusterPhase}
use neutree.Api.StaticNode.{StaticNode}
use neutree.StaticCluster.Plan.{DesiredNodePlan}
use neutree.StaticCluster.Upgrade.{
  UpgradeState, warming, static_node_cluster_upgrade,
  static_node_cluster_upgrade_step_from_observed_state,
}
use neutree.StaticCluster.Names.{
  static_node_cluster_worker_names, static_node_cluster_desired_node_names,
  static_node_cluster_head_name, static_node_by_name,
}
use neutree.StaticCluster.Observed.{
  static_node_cluster_worker_target_spec_issued, static_node_cluster_ray_runtime_running_target,
  static_node_cluster_workers_stopped, static_node_cluster_warm_ready,
}
use neutree.StaticCluster.Status.{aggregate, Listing, listed}
use neutree.StaticCluster.Status.Ready.{IsConverged, upgrade_at_target, aggregate-ready_iff}
use neutree.StaticCluster.Status.Rounds.{
  ready_nodes-le-desired_nodes, with_status, reported, moved_to, unready-no_upgrade,
  upgrade_persists,
}
use neutree.StaticCluster.Status.Alive.{RayIsAlive, reported-ready_iff}
use neutree.Api.StaticNodeCluster.{StaticNodeClusterSpec}
use neutree.Prelude.Dict.{lookup}
use neutree.Examples.Data.{
  cluster_spec_v2, cluster_from, head_running, worker_running, plans_for, observed,
}

abbrev settled : Option StaticNodeCluster
settled = some (cluster_from "v2")

abbrev all_nodes : List (Option StaticNode)
all_nodes = observed (head_running "ray:v2") (worker_running "ray:v2")

abbrev plans : List DesiredNodePlan
plans = plans_for "ray:v2"

abbrev listing : Listing
listing =
    listed
      (record { ip = "10.0.0.1"; alive = true } ∷ record { ip = "10.0.0.2"; alive = true } ∷ [])

aggregate-ready_iff_example :
    ((aggregate settled all_nodes plans).phase ≡ StaticNodeClusterPhase.ready)
    ↔ IsConverged settled all_nodes plans
aggregate-ready_iff_example = aggregate-ready_iff settled all_nodes plans

ready_nodes-le-desired_nodes_example :
    (aggregate settled all_nodes plans).ready_nodes
    ≤ (aggregate settled all_nodes plans).desired_nodes
ready_nodes-le-desired_nodes_example = ready_nodes-le-desired_nodes settled all_nodes plans

reported-ready_iff_example :
    ((reported settled all_nodes plans listing).phase ≡ StaticNodeClusterPhase.ready) ↔ (
      ((aggregate settled all_nodes plans).phase ≡ StaticNodeClusterPhase.ready)
      × RayIsAlive settled listing)
reported-ready_iff_example = reported-ready_iff settled all_nodes plans listing

abbrev upgrading : StaticNodeCluster
upgrading = cluster_from "v1"

abbrev warming_state : UpgradeState
warming_state = record { observed_version = "v1"; step = warming; target_runtime_observed = false }

nothing_seen : static_node_cluster_upgrade (some upgrading) [] plans ≡ some warming_state
unfolding static_node_cluster_upgrade static_node_cluster_upgrade_step_from_observed_state
    static_node_cluster_ray_runtime_running_target static_node_cluster_head_name static_node_by_name
    static_node_cluster_worker_target_spec_issued static_node_cluster_worker_names
    static_node_cluster_workers_stopped static_node_cluster_desired_node_names
    static_node_cluster_warm_ready
nothing_seen = refl

not_ready : (aggregate (some upgrading) [] plans).phase ≢ StaticNodeClusterPhase.ready
not_ready e =
    let converged = (aggregate-ready_iff (some upgrading) [] plans).0 e in
    let late : false ≡ true = sym (ap upgrade_at_target nothing_seen) ∙ converged.at_target in
    ground (arith, late)

upgrade_persists_example :
    (next : UpgradeState) × (static_node_cluster_upgrade
        (some (with_status upgrading (reported (some upgrading) [] plans listing)))
        all_nodes
        plans
      ≡ some next)
    × (next.observed_version ≡ "v1")
upgrade_persists_example =
    upgrade_persists upgrading [] all_nodes plans plans listing warming_state nothing_seen not_ready

abbrev next_spec : StaticNodeClusterSpec
next_spec = record cluster_spec_v2 { version = "v3" }

no_upgrade_now : static_node_cluster_upgrade settled [] plans ≡ none
unfolding static_node_cluster_upgrade
no_upgrade_now = refl

unseen_not_ready : (aggregate settled [] plans).phase ≢ StaticNodeClusterPhase.ready
unfolding static_node_cluster_desired_node_names static_node_by_name lookup
unseen_not_ready e =
    let each = ((aggregate-ready_iff settled [] plans).0 e).each_desired in absurd each.0

unready-no_upgrade_example :
    static_node_cluster_upgrade
      (some (moved_to (cluster_from "v2") (reported settled [] plans listing) next_spec))
      all_nodes
      plans
    ≡ none
unready-no_upgrade_example =
    unready-no_upgrade (cluster_from "v2") [] all_nodes plans plans listing next_spec no_upgrade_now
      unseen_not_ready
