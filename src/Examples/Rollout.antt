-- ===== src/Examples/Rollout.antt =====
-- The steps of the move from v1 to v2.
use neutree.Prelude.{
  String, true, false, Option, some, none, List, [], ◌∷◌, ◌≡◌, refl, ◌⊎◌, inl, inr, map, All, ap,
  arith, eq_iff,
}
use neutree.Api.StaticNode.{StaticNode, StaticNodeSpec, StaticNodeStatus, worker}
use neutree.Api.StaticNodeCluster.{StaticNodeCluster}
use neutree.StaticCluster.Names.{
  static_node_cluster_worker_names, static_node_cluster_desired_node_names,
  static_node_cluster_head_name, static_node_by_name,
}
use neutree.StaticCluster.Observed.{
  static_node_cluster_worker_target_spec_issued, static_node_cluster_ray_runtime_running_target,
  static_node_cluster_workers_stopped, static_node_cluster_warm_ready,
}
use neutree.Api.Component.{NodeComponentSpec-discrete, running}
use neutree.StaticCluster.Upgrade.Apply.{upgrade_here}
use neutree.StaticCluster.Plan.{DesiredNodePlan}
use neutree.StaticCluster.Upgrade.{
  UpgradeState, UpgradeStep, stopping_workers, starting_head, starting_workers,
  apply_ray_recreate_upgrade_plan, static_nodes_from_by_name, static_node_cluster_upgrade,
  static_node_cluster_upgrade_step_from_observed_state,
}
use neutree.StaticCluster.Upgrade.Workers.{HasNoRayWorker, apply-HasNoRayWorker}
use neutree.StaticCluster.Upgrade.Head.{HeadRunsCurrent}
use neutree.StaticCluster.Upgrade.Steps.{WorkerStopped, starting_head-WorkerStopped}
use neutree.StaticCluster.Upgrade.Targets.{without_components, apply_keeps}
use neutree.StaticCluster.Upgrade.Rollout.{head_released}
use neutree.StaticNode.Components.{reconcile_components}
use neutree.StaticNode.Ends.{Ends}
use neutree.Progress.{IsShownStopped, reconcile_planned-IsShownStopped}
use neutree.Examples.Data.{
  log_host, image_hash, status_of, component_seen, component_of, spec_of, plan_of,
  worker_components, cluster_from, head_running, worker_running, worker_stopped, plans_for, by_name,
}

-- All runs the old image, with the new one warm.
abbrev at_start : List (String × StaticNode)
at_start = by_name (head_running "ray:v1") (worker_running "ray:v1")

-- The worker is down.
abbrev worker_down : List (String × StaticNode)
worker_down = by_name (head_running "ray:v1") worker_stopped

-- The head runs the new image.
abbrev head_moved : List (String × StaticNode)
head_moved = by_name (head_running "ray:v2") worker_stopped

abbrev pub upgrading : Option StaticNodeCluster
upgrading = some (cluster_from "v1")

abbrev pub targets : List DesiredNodePlan
targets = plans_for "ray:v2"

abbrev state_at : UpgradeStep → UpgradeState
state_at step = record { observed_version = "v1"; step = step; target_runtime_observed = false }

Dec-no : {P : Type 0} (d : Dec P) → ¬ P → (n : ¬ P) × (d ≡ no n)
Dec-no (yes p) n = absurd (n p)
Dec-no (no m) n = (m, refl)

images_differ : ¬ (component_of "ray-worker" "ray:v1" ≡ component_of "ray-worker" "ray:v2")
images_differ e =
    let images : ◌≡◌ {A = String} "ray:v1" "ray:v2" = ap (λ c. c.image) e in
    ground (arith, eq_iff "ray:v1" "ray:v2")

components_differ :
    (n : ¬ (component_of "ray-worker" "ray:v1" ≡ component_of "ray-worker" "ray:v2"))
    × (NodeComponentSpec-discrete
          (component_of "ray-worker" "ray:v1")
          (component_of "ray-worker" "ray:v2")
        ≡ no n)
components_differ = Dec-no (NodeComponentSpec-discrete _ _) images_differ

step_start :
    static_node_cluster_upgrade_step_from_observed_state upgrading
      (static_nodes_from_by_name at_start)
      targets
    ≡ stopping_workers
unfolding static_node_cluster_upgrade static_node_cluster_upgrade_step_from_observed_state
    static_node_cluster_ray_runtime_running_target static_node_cluster_head_name static_node_by_name
    static_node_cluster_worker_target_spec_issued static_node_cluster_worker_names
    static_node_cluster_workers_stopped static_node_cluster_desired_node_names
    static_node_cluster_warm_ready
step_start = rw components_differ.1

upgrade_start : upgrade_here upgrading at_start targets ≡ some (state_at stopping_workers)
unfolding static_node_cluster_upgrade static_node_cluster_upgrade_step_from_observed_state
    static_node_cluster_ray_runtime_running_target static_node_cluster_head_name static_node_by_name
    static_node_cluster_worker_target_spec_issued static_node_cluster_worker_names
    static_node_cluster_workers_stopped static_node_cluster_desired_node_names
    static_node_cluster_warm_ready
upgrade_start = rw components_differ.1

step_down :
    static_node_cluster_upgrade_step_from_observed_state upgrading
      (static_nodes_from_by_name worker_down)
      targets
    ≡ starting_head
unfolding static_node_cluster_upgrade static_node_cluster_upgrade_step_from_observed_state
    static_node_cluster_ray_runtime_running_target static_node_cluster_head_name static_node_by_name
    static_node_cluster_worker_target_spec_issued static_node_cluster_worker_names
    static_node_cluster_workers_stopped static_node_cluster_desired_node_names
    static_node_cluster_warm_ready
step_down = refl

upgrade_down : upgrade_here upgrading worker_down targets ≡ some (state_at starting_head)
unfolding static_node_cluster_upgrade static_node_cluster_upgrade_step_from_observed_state
    static_node_cluster_ray_runtime_running_target static_node_cluster_head_name static_node_by_name
    static_node_cluster_worker_target_spec_issued static_node_cluster_worker_names
    static_node_cluster_workers_stopped static_node_cluster_desired_node_names
    static_node_cluster_warm_ready
upgrade_down = refl

step_moved :
    static_node_cluster_upgrade_step_from_observed_state upgrading
      (static_nodes_from_by_name head_moved)
      targets
    ≡ starting_workers
unfolding static_node_cluster_upgrade static_node_cluster_upgrade_step_from_observed_state
    static_node_cluster_ray_runtime_running_target static_node_cluster_head_name static_node_by_name
    static_node_cluster_worker_target_spec_issued static_node_cluster_worker_names
    static_node_cluster_workers_stopped static_node_cluster_desired_node_names
    static_node_cluster_warm_ready
step_moved = refl

upgrade_moved : upgrade_here upgrading head_moved targets ≡ some (state_at starting_workers)
unfolding static_node_cluster_upgrade static_node_cluster_upgrade_step_from_observed_state
    static_node_cluster_ray_runtime_running_target static_node_cluster_head_name static_node_by_name
    static_node_cluster_worker_target_spec_issued static_node_cluster_worker_names
    static_node_cluster_workers_stopped static_node_cluster_desired_node_names
    static_node_cluster_warm_ready
upgrade_moved = refl

head_released_example :
    All
      (HeadRunsCurrent worker_down)
      (apply_ray_recreate_upgrade_plan upgrading worker_down targets)
    ⊎ (All
          (WorkerStopped (static_nodes_from_by_name worker_down))
          (static_node_cluster_worker_names upgrading)
        ⊎ ((static_node_cluster_worker_target_spec_issued upgrading
                (static_nodes_from_by_name worker_down)
                targets
              ≡ true)
            ⊎ (static_node_cluster_ray_runtime_running_target upgrading
                  (static_nodes_from_by_name worker_down)
                  targets
                ≡ true)))
head_released_example =
    head_released upgrading worker_down targets (state_at starting_head) upgrade_down

apply-HasNoRayWorker_example :
    All HasNoRayWorker (apply_ray_recreate_upgrade_plan upgrading at_start targets)
apply-HasNoRayWorker_example =
    apply-HasNoRayWorker upgrading at_start targets (state_at stopping_workers) upgrade_start tt

starting_head-WorkerStopped_example :
    All
      (WorkerStopped (static_nodes_from_by_name worker_down))
      (static_node_cluster_worker_names upgrading)
starting_head-WorkerStopped_example =
    starting_head-WorkerStopped upgrading (static_nodes_from_by_name worker_down) targets step_down

apply_keeps_example :
    map without_components (apply_ray_recreate_upgrade_plan upgrading at_start targets)
    ≡ map without_components targets
apply_keeps_example = apply_keeps upgrading at_start targets

abbrev worker_spec_down : StaticNodeSpec
worker_spec_down = record (spec_of "10.0.0.2" worker []) { components_allocated = true }

abbrev worker_plan_down : DesiredNodePlan
worker_plan_down = record (plan_of "w" worker_spec_down) {
  target_components = worker_components "ray:v2";
}

abbrev worker_status_up : StaticNodeStatus
worker_status_up = status_of (component_seen "ray-worker" "ray:v1" running true ∷ [])

reconcile_planned-IsShownStopped_example :
    Ends (IsShownStopped "now" (worker_running "ray:v1") none none) (
      reconcile_components log_host image_hash false none
        (some (worker_running "ray:v1"))
        []
        worker_status_up.components
        [])
unfolding apply_ray_recreate_upgrade_plan static_node_cluster_upgrade
    static_node_cluster_upgrade_step_from_observed_state
    static_node_cluster_ray_runtime_running_target static_node_cluster_head_name static_node_by_name
    static_node_cluster_worker_target_spec_issued static_node_cluster_worker_names
    static_node_cluster_workers_stopped static_node_cluster_desired_node_names
    static_node_cluster_warm_ready
reconcile_planned-IsShownStopped_example =
    reconcile_planned-IsShownStopped log_host image_hash false none (λ log text. refl) upgrading
      worker_down targets (state_at starting_head) worker_plan_down worker_spec_down
      (worker_running "ray:v1") worker_status_up "now" none none [] upgrade_down tt (inr (inl refl))
      refl refl refl
