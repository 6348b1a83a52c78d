-- ===== src/StaticCluster/Planner.antt =====
-- planner.go: the plans of a cluster, sorted, fingerprinted and staged for an upgrade.
pub mod Validity
pub mod Shape
pub mod Fingerprints
pub mod Origin
use Prim.Native.String.{◌++◌ as concat}
use neutree.Prelude.{
  ℕ, zero, suc, String, Bool, true, false, not, ◌||◌, Option, none, some, List, [], ◌∷◌, ◌++◌, ◌==◌,
  map, contains, follow, is_blank, is_empty, nat_eq, text_le, if◌then◌else◌,
}
use neutree.Prelude.Dict.{lookup}
use neutree.Prelude.Result.{Result, ok, err, ◌>>=◌, ◌>>◌}
use neutree.Strings.{decimal}
use neutree.Api.Meta.{Metadata}
use neutree.Api.Accelerator.{AcceleratorProfile}
use neutree.Api.Component.{NodeComponentSpec, NodeComponentConfigFile, WarmSpec}
use neutree.Api.StaticNode.{
  StaticNodeRole, head, worker, other, StaticNode, StaticNodeSpec, StaticNodeAcceleratorStatus,
  static_node_accelerator_type_cpu,
}
use neutree.Api.StaticNodeCluster.{
  StaticNodeClusterNodeSpec, StaticNodeClusterSpec, StaticNodeCluster,
}
use neutree.StaticCluster.Names.{normalize_static_node_role, static_node_by_name, is_head}
use neutree.StaticCluster.Plan.{DesiredNodePlan, plan_spec, plan_name, sort_plans}
use neutree.StaticCluster.Metrics.{vmagent_component_name}
use neutree.StaticCluster.Metrics.Files.{vmagent_config_files}
use neutree.StaticCluster.Hashes.{with_hashes}
use neutree.StaticCluster.RayRuntime.{build_ray_component, build_node_warm_spec}
use neutree.StaticCluster.Upgrade.{apply_ray_recreate_upgrade_plan}
use neutree.StaticCluster.NodePlan.{Planner, require, plan_nodes}

-- All files for the first component of that name.
unfoldable pub append_config_files :
    String → List NodeComponentConfigFile → List NodeComponentSpec → List NodeComponentSpec
append_config_files name files [] = []
append_config_files name files (component ∷ components) =
    if component.name == name
    then record component { config_files = component.config_files ++ files } ∷ components
    else component ∷ append_config_files name files components

-- Components, and whether their slice is allocated though it is empty.
abbrev pub Components : Type 0
Components = List NodeComponentSpec × Bool

-- A change of the components of a plan's node, where it has a spec.
abbrev pub change_spec :
    (StaticNodeSpec → Components) → Option StaticNodeSpec → Option StaticNodeSpec
change_spec change none = none
change_spec change (some spec) =
    some (record spec { components = (change spec).0; components_allocated = (change spec).1 })

abbrev pub change_node : (StaticNodeSpec → Components) → Option StaticNode → Option StaticNode
change_node change none = none
change_node change (some node) = some (record node { spec = change_spec change node.spec })

-- The part of `attachMetricsConfigFiles` for one node: the head's vmagent gets the files.
unfoldable pub attach_to : List NodeComponentConfigFile → StaticNodeSpec → Components
unfolding append_config_files
attach_to files spec =
    let components =
      if is_head spec.role
      then append_config_files vmagent_component_name files spec.components
      else spec.components in
    (components, spec.components_allocated)

unfoldable pub attach_plan : List NodeComponentConfigFile → DesiredNodePlan → DesiredNodePlan
unfolding attach_to
attach_plan files plan = record plan { node = change_node (attach_to files) plan.node }

unfoldable pub attach_metrics_config_files :
    Planner → StaticNodeCluster → List DesiredNodePlan → List DesiredNodePlan
unfolding attach_plan vmagent_config_files
attach_metrics_config_files planner cluster plans =
    map (attach_plan (vmagent_config_files planner.library cluster plans)) plans

abbrev pub spec_components : Option StaticNodeSpec → List NodeComponentSpec
spec_components none = []
spec_components (some spec) = spec.components

-- The last traversal: fingerprints for what is written to the nodes.
abbrev pub normalize_spec : (NodeComponentSpec → String) → StaticNodeSpec → Components
normalize_spec digest spec = (with_hashes digest spec.components, true)

unfoldable pub normalize_plan : Planner → DesiredNodePlan → DesiredNodePlan
unfolding with_hashes
normalize_plan planner plan = record plan {
  node = change_node (normalize_spec planner.digest) plan.node;
}

-- The first traversal: it also takes the snapshot of the target.
unfoldable pub snapshot_plan : Planner → DesiredNodePlan → DesiredNodePlan
unfolding normalize_plan
snapshot_plan planner plan =
    let normal = normalize_plan planner plan in
    elim (plan_spec normal) [
      | none ↦ normal
      | some spec ↦ record normal { target_components = spec.components }
    ]

-- The end of `buildDesiredNodePlans`, from the sorting on.
unfoldable pub finish_plans :
    Planner
    → StaticNodeCluster
    → List (String × StaticNode)
    → List DesiredNodePlan
    → List DesiredNodePlan
unfolding sort_plans attach_metrics_config_files snapshot_plan apply_ray_recreate_upgrade_plan
    normalize_plan
finish_plans planner cluster current_by_name plans =
    let targets =
      map (snapshot_plan planner)
        (attach_metrics_config_files planner cluster (sort_plans plans)) in
    map (normalize_plan planner)
      (apply_ray_recreate_upgrade_plan (some cluster) current_by_name targets)

unfoldable pub build_from_spec :
    Planner
    → StaticNodeCluster
    → StaticNodeClusterSpec
    → List (Option StaticNode)
    → Result (List DesiredNodePlan)
build_from_spec planner cluster spec current_nodes = do
  let current_by_name = static_node_by_name current_nodes
  require (not (is_blank spec.version)) "static node cluster spec.version is required"
  require (not (is_blank spec.image_registry)) "static node cluster spec.image_registry is required"
  require (not (is_empty spec.nodes)) "static node cluster spec.nodes is required"
  planned ← plan_nodes planner cluster current_by_name [] 0 spec.nodes
  require (nat_eq planned.1 1)
      (concat "static node cluster requires exactly one head node, got " (decimal planned.1))
  ok (finish_plans planner cluster current_by_name planned.0)

-- `Planner.Plan`
unfoldable pub plan :
    Planner → Option StaticNodeCluster → List (Option StaticNode) → Result (List DesiredNodePlan)
plan planner none current_nodes = err "static node cluster is nil"
plan planner (some cluster) current_nodes = elim cluster.spec [
  | none ↦ err "static node cluster spec is required"
  | some spec ↦ build_from_spec planner cluster spec current_nodes
]
