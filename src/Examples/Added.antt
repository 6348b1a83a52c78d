-- ===== src/Examples/Added.antt =====
-- A worker that is added to the cluster while it moves from v1 to v2.
use neutree.Prelude.{none, [], ◌∷◌, ◌≡◌, refl}
use neutree.Api.StaticNode.{StaticNode, head, worker}
use neutree.StaticCluster.Names.{
  static_node_cluster_worker_names, static_node_cluster_desired_node_names,
  static_node_cluster_head_name, static_node_by_name,
}
use neutree.StaticCluster.Observed.{
  static_node_cluster_worker_target_spec_issued, static_node_cluster_ray_runtime_running_target,
  static_node_cluster_workers_stopped, static_node_cluster_warm_ready,
}
use neutree.Api.Component.{NodeComponentSpec-discrete}
use neutree.StaticCluster.Upgrade.{
  starting_workers, apply_ray_recreate_upgrade_plan, static_nodes_from_by_name,
  static_node_cluster_upgrade, static_node_cluster_upgrade_step_from_observed_state,
}
use neutree.Examples.Data.{
  component_of, node_of, spec_of, plan_of, head_components, worker_components, head_running,
  by_name,
}
use neutree.Examples.Rollout.{upgrading, targets}

Dec-yes : {P : Type 0} (d : Dec P) → P → (p : P) × (d ≡ yes p)
Dec-yes (yes p) q = (p, refl)
Dec-yes (no m) q = absurd (m q)

-- A worker that is added while the cluster is upgraded has no components of its own yet, and is
-- stored with its target.
abbrev worker_added : StaticNode
worker_added = node_of "w" (spec_of "10.0.0.2" worker (worker_components "ray:v2")) none

-- In the step Warming, before the worker is stored, the head keeps v1 and the worker gets v2.
plans_added :
    apply_ray_recreate_upgrade_plan upgrading (("h", head_running "ray:v1") ∷ []) targets ≡ (
      record (plan_of "h" (spec_of "10.0.0.1" head (head_components "ray:v1"))) {
        target_components = head_components "ray:v2";
      }
      ∷ plan_of "w" (spec_of "10.0.0.2" worker (worker_components "ray:v2"))
      ∷ [])
unfolding apply_ray_recreate_upgrade_plan static_node_cluster_upgrade
    static_node_cluster_upgrade_step_from_observed_state
    static_node_cluster_ray_runtime_running_target static_node_cluster_head_name static_node_by_name
    static_node_cluster_worker_target_spec_issued static_node_cluster_worker_names
    static_node_cluster_workers_stopped static_node_cluster_desired_node_names
    static_node_cluster_warm_ready
plans_added = refl

targets_same :
    (e : component_of "ray-worker" "ray:v2" ≡ component_of "ray-worker" "ray:v2")
    × (NodeComponentSpec-discrete
          (component_of "ray-worker" "ray:v2")
          (component_of "ray-worker" "ray:v2")
        ≡ yes e)
targets_same = Dec-yes (NodeComponentSpec-discrete _ _) refl

-- From there on the step is StartingWorkers, though the images are not warm and the head runs v1.
step_added :
    static_node_cluster_upgrade_step_from_observed_state upgrading
      (static_nodes_from_by_name (by_name (head_running "ray:v1") worker_added))
      targets
    ≡ starting_workers
unfolding static_node_cluster_upgrade static_node_cluster_upgrade_step_from_observed_state
    static_node_cluster_ray_runtime_running_target static_node_cluster_head_name static_node_by_name
    static_node_cluster_worker_target_spec_issued static_node_cluster_worker_names
    static_node_cluster_workers_stopped static_node_cluster_desired_node_names
    static_node_cluster_warm_ready
step_added = rw targets_same.1
