-- ===== src/StaticCluster/Upgrade.antt =====
-- upgrade.go: the recreate upgrade. Its step is read from what is observed of the nodes, and
-- stages the components that the plans ask for.
pub mod Apply
pub mod Workers
pub mod Head
pub mod Targets
pub mod Steps
pub mod Rollout
use mathlib.Core.Bool.{decide}
use neutree.Prelude.{
  String, Bool, true, false, not, ◌&&◌, Option, none, some, List, [], ◌∷◌, ◌==◌, ◌||◌, map, follow,
  contains, is_blank, is_empty, all, any, if◌then◌else◌,
}
use neutree.Prelude.Dict.{lookup, insert}
use neutree.Api.Component.{
  NodeComponentSpec, NodeComponentStatus, NodeComponentPhase, running, stopped,
  NodeComponentSpec-discrete,
}
use neutree.Api.StaticNode.{StaticNode, StaticNodeRole, StaticNodeSpec}
use neutree.Api.StaticNodeCluster.{StaticNodeCluster}
use neutree.StaticCluster.Names.{
  is_worker, static_node_by_name, static_node_cluster_head_name, static_node_cluster_worker_names,
  static_node_cluster_desired_node_names,
}
use neutree.StaticCluster.Plan.{
  DesiredNodePlan, component_by_name, set_components, ray_head_component_name,
  ray_worker_component_name, is_ray_worker_component_name, remove_ray_worker_component,
  use_current_components_if_present,
}
use neutree.StaticCluster.Observed.{
  static_node_cluster_ray_runtime_running_target, static_node_cluster_worker_target_spec_issued,
  static_node_cluster_workers_stopped, static_node_cluster_head_ray_running_target,
  static_node_cluster_warm_ready,
}

pub data UpgradeStep : Type 0 where
  warming stopping_workers starting_head starting_workers verifying : UpgradeStep

pub record UpgradeState : Type 0 where
  pub observed_version : String
  pub step : UpgradeStep
  pub target_runtime_observed : Bool

unfoldable pub static_node_cluster_upgrade_step_from_observed_state :
    Option StaticNodeCluster → List (Option StaticNode) → List DesiredNodePlan → UpgradeStep
static_node_cluster_upgrade_step_from_observed_state cluster nodes plans =
    if static_node_cluster_ray_runtime_running_target cluster nodes plans
    then verifying
    else if static_node_cluster_worker_target_spec_issued cluster nodes plans
    then starting_workers
    else if static_node_cluster_workers_stopped cluster nodes
        && static_node_cluster_head_ray_running_target cluster nodes plans
    then starting_workers
    else if static_node_cluster_workers_stopped cluster nodes
    then starting_head
    else if static_node_cluster_warm_ready cluster nodes
    then stopping_workers
    else warming

unfoldable pub static_node_cluster_upgrade :
    Option StaticNodeCluster → List (Option StaticNode) → List DesiredNodePlan → Option UpgradeState
static_node_cluster_upgrade none nodes plans = none
static_node_cluster_upgrade (some cluster) nodes plans = elim cluster.spec [
  | none ↦ none
  | some spec ↦ elim cluster.status [
    | none ↦ none
    | some status ↦
        if is_blank status.version || status.version == spec.version
        then none
        else some (record {
          observed_version = status.version;
          step = static_node_cluster_upgrade_step_from_observed_state (some cluster) nodes plans;
          target_runtime_observed =
              static_node_cluster_ray_runtime_running_target (some cluster) nodes plans;
        })
  ]
]

-- The `switch upgrade.Step` of `applyRayRecreateUpgradePlan`: what a node of that role, with that
-- current state, is to run in place of its target components.
unfoldable pub stage_components :
    UpgradeStep
    → StaticNodeRole
    → Option StaticNode
    → List NodeComponentSpec
    → List NodeComponentSpec
unfolding use_current_components_if_present remove_ray_worker_component
stage_components warming role current components =
    use_current_components_if_present components current
stage_components stopping_workers role current components =
    let present = use_current_components_if_present components current in
    if is_worker role then remove_ray_worker_component present else present
stage_components starting_head role current components =
    if is_worker role
    then remove_ray_worker_component (use_current_components_if_present components current)
    else components
stage_components starting_workers role current components = components
stage_components verifying role current components = components

-- `removeRayWorkerComponent` allocates what it leaves.
abbrev pub removes_ray_worker : UpgradeStep → StaticNodeRole → Bool
removes_ray_worker stopping_workers role = is_worker role
removes_ray_worker starting_head role = is_worker role
removes_ray_worker _ role = false

unfoldable pub stage_spec :
    UpgradeStep → Option StaticNode → Option StaticNodeSpec → Option StaticNodeSpec
unfolding stage_components
stage_spec step current none = none
stage_spec step current (some spec) = some (record spec {
  components = stage_components step spec.role current spec.components;
  components_allocated = removes_ray_worker step spec.role || spec.components_allocated;
})

unfoldable pub stage_node :
    UpgradeStep → List (String × StaticNode) → Option StaticNode → Option StaticNode
unfolding stage_spec lookup
stage_node step current_by_name none = none
stage_node step current_by_name (some node) =
    some
      (record node { spec = stage_spec step (lookup node.metadata.name current_by_name) node.spec })

-- The body of the loop over the plans.
unfoldable pub stage_plan :
    UpgradeStep → List (String × StaticNode) → DesiredNodePlan → DesiredNodePlan
unfolding stage_node
stage_plan step current_by_name plan = record plan {
  node = stage_node step current_by_name plan.node;
}

-- `staticNodesFromByName`; Go gives the values of a map in any order.
abbrev pub static_nodes_from_by_name : List (String × StaticNode) → List (Option StaticNode)
static_nodes_from_by_name current_by_name = map (λ entry. some entry.1) current_by_name

unfoldable pub apply_ray_recreate_upgrade_plan :
    Option StaticNodeCluster
    → List (String × StaticNode)
    → List DesiredNodePlan
    → List DesiredNodePlan
unfolding stage_plan
apply_ray_recreate_upgrade_plan cluster current_by_name plans =
    elim (static_node_cluster_upgrade cluster (static_nodes_from_by_name current_by_name) plans) [
      | none ↦ plans
      | some upgrade ↦ map (stage_plan upgrade.step current_by_name) plans
    ]
