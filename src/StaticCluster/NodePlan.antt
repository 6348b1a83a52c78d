-- ===== src/StaticCluster/NodePlan.antt =====
-- planner.go: the loop that checks the nodes of a spec and plans each of them.
use Prim.Native.String.{◌++◌ as concat}
use neutree.Prelude.{
  ℕ, suc, String, Bool, true, false, not, ◌||◌, Option, none, some, List, [], ◌∷◌, ◌==◌, contains,
  follow, is_blank, if◌then◌else◌,
}
use neutree.Prelude.Dict.{lookup}
use neutree.Prelude.Result.{Result, ok, err, ◌>>=◌, ◌>>◌}
use neutree.Api.Accelerator.{AcceleratorProfile}
use neutree.Api.Component.{NodeComponentSpec, WarmSpec}
use neutree.Api.StaticNode.{
  StaticNodeRole, head, worker, other, StaticNode, StaticNodeAcceleratorStatus,
  static_node_accelerator_type_cpu,
}
use neutree.Api.StaticNodeCluster.{StaticNodeClusterNodeSpec, StaticNodeCluster}
use neutree.StaticCluster.Names.{normalize_static_node_role, is_head}
use neutree.StaticCluster.Plan.{DesiredNodePlan}
use neutree.StaticCluster.Metrics.{MetricsLibrary}
use neutree.StaticCluster.Metrics.Components.{build_metrics_components}
use neutree.StaticCluster.RayRuntime.{build_ray_component, build_node_warm_spec}

-- The planner with what it is given: the accelerator plugins (`AcceleratorProfileProvider`, none
-- where it is nil), the fingerprint of a component, and the functions of Go's libraries.
pub record Planner : Type 0 where
  pub accelerator_profile_provider : Option (String → Result (Option AcceleratorProfile))
  pub metrics_remote_write_url : String
  pub digest : NodeComponentSpec → String
  pub library : MetricsLibrary

abbrev pub role_text : StaticNodeRole → String
role_text head = "head"
role_text worker = "worker"
role_text (other text) = text

unfoldable pub static_node_labels : String → StaticNodeRole → List (String × String)
static_node_labels cluster_name role =
    ("neutree.ai/static-node-cluster", cluster_name)
    ∷ ("neutree.ai/static-node-role", role_text role)
    ∷ []

unfoldable pub current_static_node_accelerator_status :
    Option StaticNode → Option StaticNodeAcceleratorStatus
current_static_node_accelerator_status node =
    follow (follow node (λ n. n.status)) (λ s. s.accelerator)

-- An `if` that returns an error.
abbrev pub require : Bool → String → Result (Unit {0})
require true error = ok tt
require false error = err error

unfoldable pub runtime_profile :
    Planner → StaticNodeAcceleratorStatus → Result (Option AcceleratorProfile)
runtime_profile planner accelerator =
    if is_blank accelerator.type || accelerator.type == static_node_accelerator_type_cpu
    then ok none
    else elim planner.accelerator_profile_provider [
      | none ↦ err "accelerator profile provider is required"
      | some provider ↦ provider accelerator.type
    ]

-- The node that the loop starts from, before its components.
unfoldable pub desired_node : StaticNodeCluster → StaticNodeClusterNodeSpec → StaticNode
unfolding normalize_static_node_role static_node_labels
desired_node cluster node_spec =
    let role = normalize_static_node_role node_spec.role in
    record {
      id = 0;
      api_version = "v1";
      kind = "StaticNode";
      metadata = record {
        workspace = cluster.metadata.workspace;
        deletion_timestamp = "";
        creation_timestamp = "";
        update_timestamp = "";
        labels = static_node_labels cluster.metadata.name role;
        annotations = [];
        name = node_spec.name;
      };
      spec = some (record {
        cluster = cluster.metadata.name;
        ip = node_spec.ip;
        role = role;
        ssh_auth = node_spec.ssh_auth;
        warm = some (record { images = []; images_allocated = false });
        components = [];
        components_allocated = false;
      });
      status = none;
    }

unfoldable pub build_node_components :
    Planner
    → StaticNodeCluster
    → StaticNode
    → StaticNodeRole
    → Option AcceleratorProfile
    → List NodeComponentSpec
unfolding build_ray_component build_metrics_components
build_node_components planner cluster node role profile =
    build_ray_component (some cluster) role profile
    ∷ build_metrics_components planner.library.parse_url (some cluster) node role profile
        planner.metrics_remote_write_url

-- `desiredNode.Spec.Warm = …; desiredNode.Spec.Components = …`
abbrev pub equip : StaticNode → Option WarmSpec → List NodeComponentSpec → StaticNode
equip node warm components = record node {
  spec = elim node.spec [
    | none ↦ none
    | some spec ↦ some (record spec { warm = warm; components = components })
  ];
}

-- The plan of one node, its checks behind it.
unfoldable pub plan_node :
    Planner
    → StaticNodeCluster
    → Option StaticNode
    → StaticNodeClusterNodeSpec
    → Result DesiredNodePlan
unfolding current_static_node_accelerator_status runtime_profile
plan_node planner cluster current node_spec =
    let node = desired_node cluster node_spec in
    elim (current_static_node_accelerator_status current) [
      | none ↦ ok (record { node = some node; accelerator = none; target_components = [] })
      | some accelerator ↦ do
        profile ← runtime_profile planner accelerator
        let components =
            build_node_components planner cluster node (normalize_static_node_role node_spec.role)
              profile
        ok (record {
          node = some (equip node (build_node_warm_spec components) components);
          accelerator = some accelerator;
          target_components = [];
        })
    ]

-- The loop over `cluster.Spec.Nodes`, with the names seen and the heads counted so far.
unfoldable pub plan_nodes :
    Planner
    → StaticNodeCluster
    → List (String × StaticNode)
    → List String
    → ℕ
    → List StaticNodeClusterNodeSpec
    → Result (List DesiredNodePlan × ℕ)
unfolding normalize_static_node_role lookup
plan_nodes planner cluster current_by_name names head_count [] = ok ([], head_count)
plan_nodes planner cluster current_by_name names head_count (node_spec ∷ node_specs) = do
  require (not (is_blank node_spec.name)) "static node name is required"
  require (not (is_blank node_spec.ip))
      (concat "static node " (concat node_spec.name " ip is required"))
  require (not (contains names node_spec.name)) (concat "duplicate static node " node_spec.name)
  plan ← plan_node planner cluster (lookup node_spec.name current_by_name) node_spec
  rest ←
      plan_nodes planner cluster current_by_name (node_spec.name ∷ names)
        (if is_head (normalize_static_node_role node_spec.role) then suc head_count else head_count)
        node_specs
  ok (plan ∷ rest.0, rest.1)
