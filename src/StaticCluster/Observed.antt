-- ===== src/StaticCluster/Observed.antt =====
-- upgrade.go: what the upgrade reads off the observed nodes, set against the plans.
use mathlib.Core.Bool.{decide}
use neutree.Prelude.{
  String, Bool, true, false, not, ◌&&◌, Option, none, some, List, [], ◌∷◌, ◌==◌, ◌||◌, follow,
  contains, is_blank, is_empty, all, any, if◌then◌else◌,
}
use neutree.Prelude.Dict.{lookup, insert}
use neutree.Api.Component.{
  NodeComponentSpec, NodeComponentStatus, NodeComponentPhase, running, stopped,
  NodeComponentSpec-discrete, component_content,
}
use neutree.Api.StaticNode.{StaticNode, StaticNodeStatus}
use neutree.Api.StaticNodeCluster.{StaticNodeCluster}
use neutree.StaticCluster.Names.{
  static_node_by_name, static_node_cluster_head_name, static_node_cluster_worker_names,
  static_node_cluster_desired_node_names,
}
use neutree.StaticCluster.Plan.{
  DesiredNodePlan, component_by_name, ray_head_component_name, ray_worker_component_name,
  is_ray_worker_component_name,
}

abbrev pub is_running : NodeComponentPhase → Bool
is_running running = true
is_running _ = false

abbrev pub is_stopped : NodeComponentPhase → Bool
is_stopped stopped = true
is_stopped _ = false

unfoldable pub desired_ray_component :
    List DesiredNodePlan → String → String → Option NodeComponentSpec
unfolding component_by_name
desired_ray_component [] node_name component_name = none
desired_ray_component (plan ∷ plans) node_name component_name =
    let rest = desired_ray_component plans node_name component_name in
    elim plan.node [
      | none ↦ rest
      | some node ↦ elim node.spec [
        | none ↦ rest
        | some spec ↦
            if node.metadata.name == node_name
            then elim (component_by_name
                (if is_empty plan.target_components
                  then spec.components
                  else plan.target_components)
                component_name) [ none ↦ rest | some component ↦ some component ]
            else rest
      ]
    ]

unfoldable pub desired_ray_component_image : List DesiredNodePlan → String → String → String
unfolding desired_ray_component
desired_ray_component_image plans node_name component_name =
    elim (desired_ray_component plans node_name component_name) [
      | none ↦ ""
      | some component ↦ component.image
    ]

unfoldable pub ray_component_stopped : List NodeComponentStatus → Bool
ray_component_stopped [] = false
ray_component_stopped (component ∷ components) =
    if is_ray_worker_component_name component.name
    then is_stopped component.phase
    else ray_component_stopped components

unfoldable pub ray_component_running_target : List NodeComponentStatus → String → String → Bool
ray_component_running_target [] component_name target_image = false
ray_component_running_target (component ∷ components) component_name target_image =
    if not (component.name == component_name)
    then ray_component_running_target components component_name target_image
    else if not component.ready || not (is_running component.phase)
    then false
    else (is_blank target_image || component.observed_image == target_image)

-- The loop of `staticNodeClusterWorkersStopped` that fills its map, and what it does with a node.
unfoldable pub stopped_workers_step :
    List String → List (String × Bool) → StaticNode → Option StaticNodeStatus → List (String × Bool)
unfolding ray_component_stopped insert
stopped_workers_step worker_names seen node none = seen
stopped_workers_step worker_names seen node (some status) =
    if contains worker_names node.metadata.name
    then insert node.metadata.name (ray_component_stopped status.components) seen
    else seen

unfoldable pub stopped_workers_from :
    List String → List (String × Bool) → List (Option StaticNode) → List (String × Bool)
unfolding stopped_workers_step
stopped_workers_from worker_names seen [] = seen
stopped_workers_from worker_names seen (none ∷ nodes) = stopped_workers_from worker_names seen nodes
stopped_workers_from worker_names seen (some node ∷ nodes) =
    stopped_workers_from worker_names (stopped_workers_step worker_names seen node node.status)
      nodes

-- Reading a Go `map[string]bool`: a missing key is false.
abbrev pub is_true : Option Bool → Bool
is_true none = false
is_true (some b) = b

unfoldable pub static_node_cluster_workers_stopped :
    Option StaticNodeCluster → List (Option StaticNode) → Bool
unfolding stopped_workers_from lookup
static_node_cluster_workers_stopped cluster nodes =
    let worker_names = static_node_cluster_worker_names cluster in
    let seen = stopped_workers_from worker_names [] nodes in
    all (λ name. is_true (lookup name seen)) worker_names

unfoldable pub static_node_ray_worker_spec_target :
    Option StaticNode → Option NodeComponentSpec → Bool
unfolding component_by_name decide component_content
static_node_ray_worker_spec_target node target = elim (follow node (λ n. n.spec)) [
  | none ↦ false
  | some spec ↦ elim target [
    | none ↦ false
    | some component ↦ elim (component_by_name spec.components ray_worker_component_name) [
      | none ↦ false
      | some current ↦
          decide
            (NodeComponentSpec-discrete (component_content current) (component_content component))
    ]
  ]
]

unfoldable pub static_node_cluster_worker_target_spec_issued :
    Option StaticNodeCluster → List (Option StaticNode) → List DesiredNodePlan → Bool
unfolding static_node_ray_worker_spec_target lookup
static_node_cluster_worker_target_spec_issued cluster nodes plans =
    any
      (λ name.
        static_node_ray_worker_spec_target (lookup name (static_node_by_name nodes))
          (desired_ray_component plans name ray_worker_component_name))
      (static_node_cluster_worker_names cluster)

-- The check that both the head and the workers make of one node.
unfoldable pub node_ray_running_target :
    List (Option StaticNode) → List DesiredNodePlan → String → String → Bool
unfolding ray_component_running_target desired_ray_component_image lookup
node_ray_running_target nodes plans component_name name =
    elim (follow (lookup name (static_node_by_name nodes)) (λ n. n.status)) [
      | none ↦ false
      | some status ↦
          ray_component_running_target status.components component_name
            (desired_ray_component_image plans name component_name)
    ]

unfoldable pub static_node_cluster_head_ray_running_target :
    Option StaticNodeCluster → List (Option StaticNode) → List DesiredNodePlan → Bool
unfolding node_ray_running_target
static_node_cluster_head_ray_running_target cluster nodes plans =
    let head_name = static_node_cluster_head_name cluster in
    if is_blank head_name
    then false
    else node_ray_running_target nodes plans ray_head_component_name head_name

unfoldable pub static_node_cluster_workers_ray_running_target :
    Option StaticNodeCluster → List (Option StaticNode) → List DesiredNodePlan → Bool
unfolding node_ray_running_target
static_node_cluster_workers_ray_running_target cluster nodes plans =
    all (node_ray_running_target nodes plans ray_worker_component_name)
      (static_node_cluster_worker_names cluster)

unfoldable pub static_node_cluster_ray_runtime_running_target :
    Option StaticNodeCluster → List (Option StaticNode) → List DesiredNodePlan → Bool
unfolding static_node_cluster_head_ray_running_target static_node_cluster_workers_ray_running_target
static_node_cluster_ray_runtime_running_target cluster nodes plans =
    static_node_cluster_head_ray_running_target cluster nodes plans
    && static_node_cluster_workers_ray_running_target cluster nodes plans

abbrev pub node_warm_ready : Option StaticNode → Bool
node_warm_ready node = elim (follow (follow node (λ n. n.status)) (λ s. s.warm)) [
  | none ↦ false
  | some warm ↦ warm.ready
]

unfoldable pub static_node_cluster_warm_ready :
    Option StaticNodeCluster → List (Option StaticNode) → Bool
unfolding lookup
static_node_cluster_warm_ready cluster nodes =
    let names = static_node_cluster_desired_node_names cluster in
    if is_empty names
    then false
    else all (λ name. node_warm_ready (lookup name (static_node_by_name nodes))) names
