-- ===== src/StaticCluster/Upgrade/Apply.antt =====
-- How an upgrade step is applied to the plans.
use neutree.Prelude.{String, Option, none, some, List, ◌≡◌, map}
use neutree.Api.StaticNode.{StaticNode}
use neutree.Api.StaticNodeCluster.{StaticNodeCluster}
use neutree.StaticCluster.Plan.{DesiredNodePlan}
use neutree.StaticCluster.Upgrade.{
  UpgradeState, static_node_cluster_upgrade, static_nodes_from_by_name, stage_plan,
  apply_ray_recreate_upgrade_plan,
}

module _ (cluster : Option StaticNodeCluster) (current_by_name : List (String × StaticNode))
    (plans : List DesiredNodePlan) where
  abbrev pub upgrade_here : Option UpgradeState
  upgrade_here =
      static_node_cluster_upgrade cluster (static_nodes_from_by_name current_by_name) plans

  pub apply-eq-map :
      (upgrade : UpgradeState)
      → upgrade_here ≡ some upgrade
      → apply_ray_recreate_upgrade_plan cluster current_by_name plans
        ≡ map (stage_plan upgrade.step current_by_name) plans
  unfolding apply_ray_recreate_upgrade_plan
  apply-eq-map upgrade e = rw (e, apply_ray_recreate_upgrade_plan)

  pub apply-eq_self :
      upgrade_here ≡ none → apply_ray_recreate_upgrade_plan cluster current_by_name plans ≡ plans
  unfolding apply_ray_recreate_upgrade_plan
  apply-eq_self e = rw (e, apply_ray_recreate_upgrade_plan)
