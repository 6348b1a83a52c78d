-- ===== src/StaticCluster/Metrics.antt =====
-- metrics_components.go: the components that measure a node.
pub mod Components
pub mod Targets
pub mod Files
use Prim.Native.String.{◌++◌ as concat}
use neutree.Prelude.{
  ℕ, suc, String, Bool, true, false, not, ◌&&◌, ◌||◌, Option, none, some, List, [], ◌∷◌, ◌++◌, ◌==◌,
  map, contains, follow, is_blank, is_nil, if◌then◌else◌,
}
use neutree.Prelude.Int.{ℤ, pos, is_not_positive}
use neutree.Strings.{decimal, trim_space, has_prefix}
use neutree.Api.Accelerator.{
  AcceleratorProfile, AcceleratorExporterProfile, AcceleratorExporterRuntimeProfile,
  AcceleratorExporterConfigFile,
}
use neutree.Api.Component.{
  all_nil, NodeComponentSpec, NodeComponentPort, NodeComponentVolume, NodeComponentConfigFile,
  NodeComponentHealthCheck,
}
use neutree.Api.StaticNode.{StaticNode, StaticNodeRole}
use neutree.Api.StaticNodeCluster.{StaticNodeCluster}
use neutree.Image.{rewrite_image_ref}
use neutree.StaticCluster.Names.{cluster_spec, is_head, static_node_cluster_head_ip}

-- An entry of a file that vmagent reads its targets from.
pub record VmagentFileSdTarget : Type 0 where
  pub targets : List String
  pub labels : List (String × String)

-- What the code calls of Go's libraries: `url.Parse` (the scheme and the host), `strconv.Quote`, and
-- `json.MarshalIndent` for targets, which has no error for them.
pub record MetricsLibrary : Type 0 where
  pub parse_url : String → Option (String × String)
  pub quote : String → String
  pub marshal_indent : List VmagentFileSdTarget → String

abbrev pub node_exporter_component_name : String
node_exporter_component_name = "node-exporter"

abbrev pub node_agent_component_name : String
node_agent_component_name = "neutree-node-agent"

abbrev pub vmagent_component_name : String
vmagent_component_name = "vmagent"

abbrev pub accelerator_exporter_component_name : String
accelerator_exporter_component_name = "accelerator-exporter"

abbrev pub default_vmagent_port : ℕ
default_vmagent_port = 8429

abbrev pub default_node_exporter_port : ℕ
default_node_exporter_port = 19100

abbrev pub default_node_agent_port : ℕ
default_node_agent_port = 19101

abbrev pub default_prometheus_http_path : String
default_prometheus_http_path = "/metrics"

abbrev pub vmagent_config_path : String
vmagent_config_path = "/etc/neutree/vmagent/config.yaml"

-- The two modes: a text that is neither means the first.
pub data ClusterAcceleratorExporterMode : Type 0 where
  managed external : ClusterAcceleratorExporterMode

abbrev pub is_managed : ClusterAcceleratorExporterMode → Bool
is_managed managed = true
is_managed external = false

abbrev pub mode_text : ClusterAcceleratorExporterMode → String
mode_text managed = "managed"
mode_text external = "external"

unfoldable pub accelerator_exporter_mode : Option StaticNodeCluster → ClusterAcceleratorExporterMode
unfolding trim_space
accelerator_exporter_mode cluster =
    elim (follow (follow (cluster_spec cluster) (λ s. s.metrics)) (λ m. m.accelerator_exporter)) [
      | none ↦ managed
      | some config ↦ if trim_space config.mode == "external" then external else managed
    ]

unfoldable pub static_component_image : Option StaticNodeCluster → String → String
unfolding rewrite_image_ref
static_component_image cluster image =
    rewrite_image_ref (elim (cluster_spec cluster) [ none ↦ "" | some spec ↦ spec.image_registry ])
      image

-- A health check by HTTP, the other fields unset.
abbrev pub http_check : String → ℤ → NodeComponentHealthCheck
http_check path port = record {
  command = [];
  http_host = "";
  http_path = path;
  port = port;
  initial_delay_sec = pos 0;
  interval_sec = pos 0;
  timeout_sec = pos 0;
}

abbrev pub tcp_port : String → ℤ → NodeComponentPort
tcp_port name port = record { name = name; port = port; protocol = "TCP" }

abbrev pub read_only_volume : String → String → String → NodeComponentVolume
read_only_volume name host_path mount_path = record {
  name = name;
  host_path = host_path;
  mount_path = mount_path;
  read_only = true;
}

unfoldable pub build_node_exporter_component : Option StaticNodeCluster → NodeComponentSpec
unfolding static_component_image decimal
build_node_exporter_component cluster = record {
  name = node_exporter_component_name;
  image = static_component_image cluster "quay.io/prometheus/node-exporter:v1.8.2";
  command = [];
  args =
      "--path.rootfs=/host"
      ∷ concat "--web.listen-address=:" (decimal default_node_exporter_port)
      ∷ [];
  env = [];
  ports = tcp_port "metrics" (pos default_node_exporter_port) ∷ [];
  volumes = read_only_volume "host-root" "/" "/host" ∷ [];
  docker_run_options = "--net=host" ∷ "--pid=host" ∷ [];
  config_files = [];
  health_check = some (http_check default_prometheus_http_path (pos default_node_exporter_port));
  config_hash = "";
  allocated = all_nil;
}

abbrev pub accelerator_exporter_profile :
    Option AcceleratorProfile → Option AcceleratorExporterProfile
accelerator_exporter_profile profile = follow profile (λ p. p.metrics_exporter)

unfoldable pub valid_accelerator_exporter_profile : Option AcceleratorExporterProfile → Bool
unfolding trim_space
valid_accelerator_exporter_profile none = false
valid_accelerator_exporter_profile (some exporter) =
    not (is_blank (trim_space exporter.name))
    && not (is_blank (trim_space exporter.image))
    && not (is_not_positive exporter.port)

unfoldable pub normalized_metrics_path : String → String
unfolding has_prefix
normalized_metrics_path path =
    if is_blank path
    then default_prometheus_http_path
    else if not (has_prefix path "/")
    then concat "/" path
    else path

-- The capabilities that are not blank, as options.
unfoldable pub capability_options : List String → List String
unfolding trim_space
capability_options [] = []
capability_options (capability ∷ capabilities) =
    let rest = capability_options capabilities in
    if is_blank (trim_space capability)
    then rest
    else concat "--cap-add=" (trim_space capability) ∷ rest

unfoldable pub accelerator_exporter_docker_run_options :
    Option AcceleratorExporterRuntimeProfile → List String
unfolding capability_options
accelerator_exporter_docker_run_options none = []
accelerator_exporter_docker_run_options (some runtime) =
    (if runtime.host_network then "--net=host" ∷ [] else [])
    ++ ((if runtime.host_pid then "--pid=host" ∷ [] else [])
        ++ (elim runtime.capabilities [
          | none ↦ []
          | some capabilities ↦ capability_options capabilities.add
        ]
            ++ runtime.docker_run_options))

unfoldable pub accelerator_exporter_config_volumes :
    ℕ → List AcceleratorExporterConfigFile → List NodeComponentVolume
unfolding decimal
accelerator_exporter_config_volumes i [] = []
accelerator_exporter_config_volumes i (file ∷ files) =
    let rest = accelerator_exporter_config_volumes (suc i) files in
    if is_blank file.path
    then rest
    else read_only_volume (concat "accelerator-exporter-config-" (decimal i)) file.path file.path
      ∷ rest

abbrev pub component_config_file : AcceleratorExporterConfigFile → NodeComponentConfigFile
component_config_file file = record {
  path = file.path;
  content = file.content;
  mode = file.mode;
  owner = file.owner;
  group = file.group;
  sudo = file.sudo;
  atomic = file.atomic;
  create_parent = file.create_parent;
  skip_restart_on_change = file.skip_restart_on_change;
}

unfoldable pub build_accelerator_exporter_component :
    Option StaticNodeCluster → AcceleratorExporterProfile → NodeComponentSpec
unfolding static_component_image accelerator_exporter_config_volumes
    accelerator_exporter_docker_run_options normalized_metrics_path
build_accelerator_exporter_component cluster exporter = record {
  name = accelerator_exporter_component_name;
  image = static_component_image cluster exporter.image;
  command = [];
  args = exporter.args;
  env = exporter.env;
  ports = tcp_port "metrics" exporter.port ∷ [];
  volumes = accelerator_exporter_config_volumes 0 exporter.config_files;
  docker_run_options = accelerator_exporter_docker_run_options exporter.runtime;
  config_files = map component_config_file exporter.config_files;
  health_check = some (http_check (normalized_metrics_path exporter.metrics_path) exporter.port);
  config_hash = "";
  allocated = record all_nil {
    args = true;
    volumes = true;
    docker_run_options = not (is_nil exporter.runtime);
    config_files = true;
  };
}
