-- ===== src/StaticCluster/Metrics/Components.antt =====
-- metrics_components.go: the agents of a node, and all components that measure it.
pub mod Options
pub mod Names
use Prim.Native.String.{◌++◌ as concat}
use neutree.Prelude.{
  is_empty, ℕ, String, Bool, true, false, not, ◌&&◌, ◌||◌, Option, none, some, List, [], ◌∷◌, ◌++◌,
  ◌==◌, contains, follow, is_blank, if◌then◌else◌,
}
use neutree.Prelude.Int.{pos}
use neutree.Strings.{decimal, trim_space}
use neutree.Api.Accelerator.{
  AcceleratorProfile, AcceleratorExporterProfile, AcceleratorExporterRuntimeProfile,
}
use neutree.Api.Component.{all_nil, NodeComponentSpec}
use neutree.Api.StaticNode.{StaticNode, StaticNodeRole}
use neutree.Api.StaticNodeCluster.{StaticNodeCluster}
use neutree.StaticCluster.Names.{is_head, static_node_cluster_head_ip}
use neutree.StaticCluster.Metrics.{
  node_agent_component_name, vmagent_component_name, default_vmagent_port, default_node_agent_port,
  vmagent_config_path, is_managed, mode_text, accelerator_exporter_mode, static_component_image,
  http_check, tcp_port, read_only_volume, build_node_exporter_component,
  accelerator_exporter_profile, valid_accelerator_exporter_profile,
  accelerator_exporter_docker_run_options, build_accelerator_exporter_component,
}

abbrev is_allowed : String → Bool
is_allowed key = key == "NVIDIA_VISIBLE_DEVICES" || key == "NVIDIA_DRIVER_CAPABILITIES"

unfoldable pub allowed_env : List (String × String) → List (String × String)
allowed_env [] = []
allowed_env (entry ∷ entries) =
    let rest = allowed_env entries in if is_allowed entry.0 then entry ∷ rest else rest

-- `exporter.Env`, behind the nil test.
abbrev pub exporter_env : Option AcceleratorProfile → List (String × String)
exporter_env profile = elim (accelerator_exporter_profile profile) [
  | none ↦ []
  | some exporter ↦ exporter.env
]

unfoldable pub node_agent_env : Option AcceleratorProfile → List (String × String)
unfolding allowed_env
node_agent_env profile = elim (accelerator_exporter_profile profile) [
  | none ↦ []
  | some exporter ↦ allowed_env exporter.env
]

-- The loop of `appendDockerRunOptionsUnique`, with the options seen.
unfoldable pub unique_options : List String → List String → List String
unfolding trim_space
unique_options seen [] = []
unique_options seen (option ∷ options) =
    let trimmed = trim_space option in
    let rest = unique_options seen options in
    let later = unique_options (trimmed ∷ seen) options in
    if is_blank trimmed || contains seen trimmed then rest else trimmed ∷ later

unfoldable pub append_docker_run_options_unique : List String → List String → List String
unfolding unique_options
append_docker_run_options_unique options values = unique_options [] (options ++ values)

abbrev pub node_agent_options : List String
node_agent_options = "--net=host" ∷ "--pid=host" ∷ "--cgroupns=host" ∷ []

-- `exporter.Runtime`, behind the nil tests.
abbrev pub exporter_runtime : Option AcceleratorProfile → Option AcceleratorExporterRuntimeProfile
exporter_runtime profile = follow (accelerator_exporter_profile profile) (λ e. e.runtime)

unfoldable pub node_agent_docker_run_options : Option AcceleratorProfile → List String
unfolding append_docker_run_options_unique accelerator_exporter_docker_run_options
node_agent_docker_run_options profile = elim (exporter_runtime profile) [
  | none ↦ node_agent_options
  | some runtime ↦
      append_docker_run_options_unique node_agent_options
        (accelerator_exporter_docker_run_options (some runtime))
]

-- `v1.RayDashboardPort`
abbrev pub ray_dashboard_port : ℕ
ray_dashboard_port = 8265

unfoldable pub node_agent_args : Option StaticNodeCluster → StaticNode → List String
unfolding accelerator_exporter_mode static_node_cluster_head_ip decimal
node_agent_args cluster node =
    concat "--listen-address=:" (decimal default_node_agent_port)
    ∷ "--cluster-type=ray"
    ∷ concat "--metrics-mode=" (mode_text (accelerator_exporter_mode cluster))
    ∷ concat "--ray-dashboard-url=http://"
        (concat (static_node_cluster_head_ip cluster) (concat ":" (decimal ray_dashboard_port)))
    ∷ "--procfs-root=/host/proc"
    ∷ "--cgroupfs-root=/host/sys/fs/cgroup"
    ∷ concat "--node=" node.metadata.name
    ∷ elim node.spec [ none ↦ [] | some spec ↦ concat "--node-ip=" spec.ip ∷ [] ]

unfoldable pub build_node_agent_component :
    Option StaticNodeCluster → StaticNode → Option AcceleratorProfile → NodeComponentSpec
unfolding static_component_image node_agent_args node_agent_env node_agent_docker_run_options
build_node_agent_component cluster node profile = record {
  name = node_agent_component_name;
  image = static_component_image cluster "neutree/neutree-node-agent:v1.1.0-rc.1";
  command = [];
  args = node_agent_args cluster node;
  env = node_agent_env profile;
  ports = tcp_port "http" (pos default_node_agent_port) ∷ [];
  volumes =
      read_only_volume "host-proc" "/proc" "/host/proc"
      ∷ read_only_volume "host-cgroup" "/sys/fs/cgroup" "/host/sys/fs/cgroup"
      ∷ [];
  docker_run_options = node_agent_docker_run_options profile;
  config_files = [];
  health_check = some (http_check "/health" (pos default_node_agent_port));
  config_hash = "";
  allocated = record all_nil { env = not (is_empty (exporter_env profile)) };
}

unfoldable pub build_vmagent_component : Option StaticNodeCluster → String → NodeComponentSpec
unfolding static_component_image decimal
build_vmagent_component cluster metrics_remote_write_url = record {
  name = vmagent_component_name;
  image = static_component_image cluster "victoriametrics/vmagent:v1.115.0";
  command = [];
  args =
      concat "-promscrape.config=" vmagent_config_path
      ∷ concat "-httpListenAddr=:" (decimal default_vmagent_port)
      ∷ (if is_blank metrics_remote_write_url
          then []
          else concat "-remoteWrite.url=" metrics_remote_write_url ∷ []);
  env = [];
  ports = tcp_port "http" (pos default_vmagent_port) ∷ [];
  volumes =
      read_only_volume "vmagent-config-dir" "/etc/neutree/vmagent" "/etc/neutree/vmagent" ∷ [];
  docker_run_options = "--net=host" ∷ [];
  config_files = [];
  health_check = some (http_check "/health" (pos default_vmagent_port));
  config_hash = "";
  allocated = all_nil;
}

-- `util.IsHTTPOrHTTPSURL`: `parse_url` gives the scheme and the host of a URL, as net/url does.
unfoldable pub is_http_or_https_url : (String → Option (String × String)) → String → Bool
unfolding trim_space
is_http_or_https_url parse_url text = elim (parse_url (trim_space text)) [
  | none ↦ false
  | some url ↦ (url.0 == "http" || url.0 == "https") && not (is_blank url.1)
]

-- The accelerator's exporter, where one is to be installed.
unfoldable pub managed_exporter :
    Option StaticNodeCluster → Option AcceleratorProfile → List NodeComponentSpec
unfolding accelerator_exporter_mode valid_accelerator_exporter_profile
    build_accelerator_exporter_component
managed_exporter cluster profile = elim (accelerator_exporter_profile profile) [
  | none ↦ []
  | some exporter ↦
      if is_managed (accelerator_exporter_mode cluster)
        && valid_accelerator_exporter_profile (some exporter)
      then build_accelerator_exporter_component cluster exporter ∷ []
      else []
]

unfoldable pub build_metrics_components :
    (String → Option (String × String))
    → Option StaticNodeCluster
    → StaticNode
    → StaticNodeRole
    → Option AcceleratorProfile
    → String
    → List NodeComponentSpec
unfolding is_http_or_https_url build_node_exporter_component managed_exporter
    build_node_agent_component build_vmagent_component
build_metrics_components parse_url cluster node role profile metrics_remote_write_url =
    if not (is_http_or_https_url parse_url metrics_remote_write_url)
    then []
    else build_node_exporter_component cluster
      ∷ (managed_exporter cluster profile
          ++ (build_node_agent_component cluster node profile
              ∷ (if is_head role
                  then build_vmagent_component cluster metrics_remote_write_url ∷ []
                  else [])))
