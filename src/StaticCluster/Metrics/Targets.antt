-- ===== src/StaticCluster/Metrics/Targets.antt =====
-- metrics_components.go: what the agent of the head node is to read.
pub mod Groups
use Prim.Native.String.{String, ◌++◌ as concat}
use Prim.Native.Char.{code}
use neutree.Prelude.{
  ℕ, suc, Bool, true, false, not, ◌&&◌, ◌||◌, Option, none, some, List, [], ◌∷◌, ◌++◌, ◌==◌, follow,
  is_blank, is_empty, is_nil, keep, map, length, sort_texts, if◌then◌else◌,
}
use neutree.Prelude.Dict.{lookup, insert}
use neutree.Prelude.Int.{ℤ, pos}
use neutree.Strings.{decimal, trim_space, has_prefix, trim_left_char, trim_right_char, replace_char}
use neutree.Api.Component.{NodeComponentSpec}
use neutree.Api.StaticNode.{StaticNode, StaticNodeSpec, StaticNodeRole}
use neutree.Api.StaticNodeCluster.{StaticNodeCluster}
use neutree.StaticCluster.Plan.{
  DesiredNodePlan, plan_spec, component_by_name, ray_head_component_name, ray_worker_component_name,
}
use neutree.StaticCluster.NodePlan.{role_text}
use neutree.StaticNode.RunCommand.{text_of_int, name_code, name_char}
use neutree.StaticCluster.Metrics.{
  VmagentFileSdTarget, accelerator_exporter_component_name, default_prometheus_http_path,
  is_managed, accelerator_exporter_mode, normalized_metrics_path,
}

abbrev pub vmagent_file_sd_dir : String
vmagent_file_sd_dir = "/etc/neutree/vmagent/file_sd"

abbrev pub external_dcgm_exporter_port : ℕ
external_dcgm_exporter_port = 9400

-- The node of a target, its spec being there; the component of the code is not read again.
pub record AcceleratorExporterTarget : Type 0 where
  pub node : StaticNode
  pub spec : StaticNodeSpec
  pub accelerator_type : String
  pub port : ℤ

pub record AcceleratorExporterTargetGroup : Type 0 where
  pub accelerator_type : String
  pub metrics_path : String
  pub job_name : String
  pub targets : List AcceleratorExporterTarget

abbrev pub has_component : List NodeComponentSpec → String → Bool
has_component [] name = false
has_component (component ∷ components) name =
    component.name == name || has_component components name

-- `staticNodeHasComponent`, behind the nil tests of the callers.
abbrev pub plan_has : String → DesiredNodePlan → Bool
plan_has name plan = elim (plan_spec plan) [
  | none ↦ false
  | some spec ↦ has_component spec.components name
]

abbrev pub has_ray_component : DesiredNodePlan → Bool
has_ray_component plan =
    plan_has ray_head_component_name plan || plan_has ray_worker_component_name plan

unfoldable pub vmagent_target_labels :
    StaticNodeCluster → StaticNode → StaticNodeSpec → String → List (String × String)
vmagent_target_labels cluster node spec source =
    ("source", source)
    ∷ ("workspace", cluster.metadata.workspace)
    ∷ ("neutree_cluster", cluster.metadata.name)
    ∷ ("static_node_cluster", cluster.metadata.name)
    ∷ ("cluster_type", "ray")
    ∷ ("node", node.metadata.name)
    ∷ ("node_ip", spec.ip)
    ∷ ("node_role", role_text spec.role)
    ∷ []

abbrev pub address : StaticNodeSpec → ℤ → String
address spec port = concat spec.ip (concat ":" (text_of_int port))

-- The target of a node that has the component, one for each plan.
abbrev node_target : StaticNodeCluster → String → ℤ → Option StaticNode → List VmagentFileSdTarget
unfolding vmagent_target_labels
node_target cluster source port none = []
node_target cluster source port (some node) = elim node.spec [
  | none ↦ []
  | some spec ↦
      record {
        targets = address spec port ∷ [];
        labels = vmagent_target_labels cluster node spec source;
      }
      ∷ []
]

unfoldable pub component_targets :
    StaticNodeCluster
    → (DesiredNodePlan → Bool)
    → String
    → ℤ
    → List DesiredNodePlan
    → List VmagentFileSdTarget
unfolding vmagent_target_labels
component_targets cluster test source port [] = []
component_targets cluster test source port (plan ∷ plans) =
    let rest = component_targets cluster test source port plans in
    if test plan then node_target cluster source port plan.node ++ rest else rest

-- The loop of `sanitizeStaticMetricsName`: whether something is written, and `lastHyphen`.
unfoldable pub sanitize_metrics_from : Bool → Bool → String → String
unfolding name_code name_char
sanitize_metrics_from started last_hyphen String.[] = String.[]
sanitize_metrics_from started last_hyphen (String.◌∷◌ c s) =
    let after_letter = sanitize_metrics_from true false s in
    let after_hyphen = sanitize_metrics_from started true s in
    let skipped = sanitize_metrics_from started last_hyphen s in
    elim (name_code (code c)) [
      | some letter ↦ String.◌∷◌ (name_char letter) after_letter
      | none ↦ if started && not last_hyphen then concat "-" after_hyphen else skipped
    ]

unfoldable pub sanitize_static_metrics_name : String → String
unfolding sanitize_metrics_from trim_space trim_left_char trim_right_char
sanitize_static_metrics_name value =
    trim_right_char (trim_left_char (sanitize_metrics_from false false (trim_space value)) b'-')
      b'-'

unfoldable pub managed_accelerator_exporter_job_name : String → String
unfolding sanitize_static_metrics_name
managed_accelerator_exporter_job_name accelerator_type =
    let name = sanitize_static_metrics_name accelerator_type in
    if is_blank name then "accelerator-exporter" else concat "accelerator-exporter-" name

-- `acceleratorExporterJobName`, with the index as a text.
unfoldable pub accelerator_exporter_job_name : String → String → String
unfolding trim_left_char trim_right_char replace_char
accelerator_exporter_job_name metrics_path index =
    let name = replace_char (trim_right_char (trim_left_char metrics_path b'/') b'/') b'/' "-" in
    if metrics_path == default_prometheus_http_path
    then "static-node-accelerator-exporter"
    else concat "static-node-accelerator-exporter-" (if is_blank name then index else name)

unfoldable pub accelerator_exporter_target_group_job_name :
    AcceleratorExporterTargetGroup → ℕ → String
unfolding accelerator_exporter_job_name decimal
accelerator_exporter_target_group_job_name group index =
    if is_blank group.job_name
    then accelerator_exporter_job_name group.metrics_path (decimal index)
    else group.job_name

-- `group := groupsByAcceleratorType[acceleratorType]`, and its first fields where it is new.
abbrev group_of :
    String → String → Option AcceleratorExporterTargetGroup → AcceleratorExporterTargetGroup
unfolding managed_accelerator_exporter_job_name
group_of accelerator_type metrics_path none = record {
  accelerator_type = accelerator_type;
  metrics_path = metrics_path;
  job_name = managed_accelerator_exporter_job_name accelerator_type;
  targets = [];
}
group_of accelerator_type metrics_path (some group) = group

abbrev Groups : Type 0
Groups = List (String × AcceleratorExporterTargetGroup)

unfoldable pub add_target : AcceleratorExporterTarget → String → Groups → Groups
unfolding lookup insert managed_accelerator_exporter_job_name
add_target target metrics_path groups =
    let group =
      group_of target.accelerator_type metrics_path (lookup target.accelerator_type groups) in
    insert target.accelerator_type (record group { targets = group.targets ++ target ∷ [] }) groups

-- The path in the health check of the component.
abbrev pub component_metrics_path : NodeComponentSpec → String
unfolding normalized_metrics_path
component_metrics_path component = elim component.health_check [
  | none ↦ default_prometheus_http_path
  | some check ↦ normalized_metrics_path check.http_path
]

-- The target that a plan gives, with the path of its metrics.
unfoldable pub managed_target : DesiredNodePlan → Option (AcceleratorExporterTarget × String)
unfolding component_by_name normalized_metrics_path
managed_target plan = elim plan.node [
  | none ↦ none
  | some node ↦ elim node.spec [
    | none ↦ none
    | some spec ↦ elim (component_by_name spec.components accelerator_exporter_component_name) [
      | none ↦ none
      | some component ↦ elim component.ports [
        | [] ↦ none
        | port ∷ ports ↦ elim plan.accelerator [
          | none ↦ none
          | some accelerator ↦
              if is_blank accelerator.type
              then none
              else some (
                record {
                  node = node;
                  spec = spec;
                  accelerator_type = accelerator.type;
                  port = port.port;
                },
                component_metrics_path component,
              )
        ]
      ]
    ]
  ]
]

abbrev pub add_managed : Groups → Option (AcceleratorExporterTarget × String) → Groups
unfolding add_target
add_managed groups none = groups
add_managed groups (some found) = add_target found.0 found.1 groups

-- The loop over the plans in the managed mode.
unfoldable pub managed_groups : Groups → List DesiredNodePlan → Groups
unfolding managed_target add_target
managed_groups groups [] = groups
managed_groups groups (plan ∷ plans) =
    managed_groups (add_managed groups (managed_target plan)) plans

abbrev pub groups_at : Groups → List String → List AcceleratorExporterTargetGroup
unfolding lookup
groups_at groups [] = []
groups_at groups (name ∷ names) = elim (lookup name groups) [
  | none ↦ groups_at groups names
  | some group ↦ group ∷ groups_at groups names
]

unfoldable pub sorted_accelerator_exporter_target_groups :
    Groups → List AcceleratorExporterTargetGroup
unfolding sort_texts lookup
sorted_accelerator_exporter_target_groups groups =
    groups_at groups (sort_texts (map (λ entry. entry.0) groups))

-- The target of a plan in the external mode.
abbrev external_target : DesiredNodePlan → List AcceleratorExporterTarget
external_target plan = elim plan.node [
  | none ↦ []
  | some node ↦ elim node.spec [
    | none ↦ []
    | some spec ↦ elim plan.accelerator [
      | none ↦ []
      | some accelerator ↦
          if accelerator.type == "nvidia_gpu"
          then record {
            node = node;
            spec = spec;
            accelerator_type = accelerator.type;
            port = pos external_dcgm_exporter_port;
          }
            ∷ []
          else []
    ]
  ]
]

abbrev external_targets : List DesiredNodePlan → List AcceleratorExporterTarget
external_targets [] = []
external_targets (plan ∷ plans) = external_target plan ++ external_targets plans

unfoldable pub external_accelerator_exporter_target_groups :
    List DesiredNodePlan → List AcceleratorExporterTargetGroup
external_accelerator_exporter_target_groups plans =
    if is_empty (external_targets plans)
    then []
    else record {
      accelerator_type = "";
      metrics_path = default_prometheus_http_path;
      job_name = "";
      targets = external_targets plans;
    }
      ∷ []

unfoldable pub accelerator_exporter_target_groups :
    StaticNodeCluster → List DesiredNodePlan → List AcceleratorExporterTargetGroup
unfolding accelerator_exporter_mode external_accelerator_exporter_target_groups managed_groups
    sorted_accelerator_exporter_target_groups
accelerator_exporter_target_groups cluster plans =
    if is_managed (accelerator_exporter_mode (some cluster))
    then sorted_accelerator_exporter_target_groups (managed_groups [] plans)
    else external_accelerator_exporter_target_groups plans
