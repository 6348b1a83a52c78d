-- ===== src/StaticCluster/Upgrade/Rollout.antt =====
-- upgrade.go: what the plan of the head asks for during an upgrade, against what is observed.
use neutree.Prelude.{String, true, Option, none, some, List, ◌≡◌, refl, ◌⊎◌, inl, inr, All, arith}
use neutree.Api.StaticNode.{StaticNode}
use neutree.Api.StaticNodeCluster.{StaticNodeCluster}
use neutree.StaticCluster.Names.{static_node_cluster_worker_names}
use neutree.StaticCluster.Plan.{DesiredNodePlan}
use neutree.StaticCluster.Observed.{
  static_node_cluster_worker_target_spec_issued, static_node_cluster_ray_runtime_running_target,
}
use neutree.StaticCluster.Upgrade.{
  UpgradeStep, UpgradeState, warming, stopping_workers, starting_head, starting_workers, verifying,
  static_node_cluster_upgrade, static_node_cluster_upgrade_step_from_observed_state,
  static_nodes_from_by_name, apply_ray_recreate_upgrade_plan,
}
use neutree.StaticCluster.Upgrade.Apply.{upgrade_here}
use neutree.StaticCluster.Upgrade.Head.{HeadRunsCurrent, apply-HeadRunsCurrent}
use neutree.StaticCluster.Upgrade.Steps.{
  WorkerStopped, starting_head-WorkerStopped, starting_workers_cases,
}

-- An upgrade under way has the step that is read from the observed state.
upgrade-step :
    (cluster : Option StaticNodeCluster) (nodes : List (Option StaticNode))
    (plans : List DesiredNodePlan) (upgrade : UpgradeState)
    → static_node_cluster_upgrade cluster nodes plans ≡ some upgrade
    → static_node_cluster_upgrade_step_from_observed_state cluster nodes plans ≡ upgrade.step
unfolding static_node_cluster_upgrade
upgrade-step none nodes plans upgrade e = cc
upgrade-step (some cluster) nodes plans upgrade e = ground arith

module _ (cluster : Option StaticNodeCluster) (current_by_name : List (String × StaticNode))
    (plans : List DesiredNodePlan) where
  abbrev nodes : List (Option StaticNode)
  nodes = static_nodes_from_by_name current_by_name

  released :
      (step : UpgradeStep) (upgrade : UpgradeState)
      → upgrade_here cluster current_by_name plans ≡ some upgrade
      → static_node_cluster_upgrade_step_from_observed_state cluster nodes plans ≡ step
      → upgrade.step ≡ step
      → All
          (HeadRunsCurrent current_by_name)
          (apply_ray_recreate_upgrade_plan cluster current_by_name plans)
        ⊎ (All (WorkerStopped nodes) (static_node_cluster_worker_names cluster)
            ⊎ ((static_node_cluster_worker_target_spec_issued cluster nodes plans ≡ true)
                ⊎ (static_node_cluster_ray_runtime_running_target cluster nodes plans ≡ true)))
  unfolding static_node_cluster_upgrade_step_from_observed_state
  released warming upgrade e s t =
      inl (apply-HeadRunsCurrent cluster current_by_name plans upgrade e (rw t tt))
  released stopping_workers upgrade e s t =
      inl (apply-HeadRunsCurrent cluster current_by_name plans upgrade e (rw t tt))
  released starting_head upgrade e s t =
      inr (inl (starting_head-WorkerStopped cluster nodes plans s))
  released starting_workers upgrade e s t = elim (starting_workers_cases cluster nodes plans s) [
    | inl issued ↦ inr (inr (inl issued))
    | inr (stopped, _) ↦ inr (inl stopped)
  ]
  released verifying upgrade e s t = inr (inr (inr (ground arith)))

  -- During an upgrade, either the plan of every head that has components stored asks for those
  -- components, or every worker is observed stopped, or a worker was already given its target, or the whole Ray
  -- runtime is observed at its target.
  pub head_released :
      (upgrade : UpgradeState)
      → upgrade_here cluster current_by_name plans ≡ some upgrade
      → All
          (HeadRunsCurrent current_by_name)
          (apply_ray_recreate_upgrade_plan cluster current_by_name plans)
        ⊎ (All (WorkerStopped nodes) (static_node_cluster_worker_names cluster)
            ⊎ ((static_node_cluster_worker_target_spec_issued cluster nodes plans ≡ true)
                ⊎ (static_node_cluster_ray_runtime_running_target cluster nodes plans ≡ true)))
  head_released upgrade e =
      released upgrade.step upgrade e (upgrade-step cluster nodes plans upgrade e) refl
