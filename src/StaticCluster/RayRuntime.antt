-- ===== src/StaticCluster/RayRuntime.antt =====
-- components.go: the Ray component of a node, and the images that the node is to have.
pub mod Warm
use Prim.Native.Char.{Char, code}
use Prim.Native.String.{◌++◌ as concat}
use neutree.Prelude.{
  ℕ, suc, String, Bool, true, false, not, Option, none, some, List, [], ◌∷◌, ◌++◌, ◌==◌, contains,
  is_blank, is_empty, nat_eq, leb, if◌then◌else◌,
}
use neutree.Prelude.Dict.{insert}
use neutree.Prelude.Int.{ℤ, pos}
use neutree.Strings.{join, trim_right_char, json_string}
use neutree.Image.{build_cluster_image_ref}
use neutree.Api.Accelerator.{AcceleratorProfile, RuntimeConfig}
use neutree.Api.Component.{
  all_nil, NodeComponentSpec, NodeComponentHealthCheck, WarmSpec, WarmImageSpec,
}
use neutree.Api.StaticNode.{StaticNodeRole}
use neutree.Api.StaticNodeCluster.{StaticNodeCluster}
use neutree.StaticCluster.Names.{cluster_spec, static_node_cluster_head_ip, is_head, is_worker}
use neutree.StaticCluster.Plan.{
  ray_head_component_name, ray_worker_component_name, is_ray_component_name,
}

-- v1.RayletMetricsPort; the code also prints it.
abbrev pub raylet_metrics_port : ℕ
raylet_metrics_port = 54311

abbrev insert_all : List (String × String) → List (String × String) → List (String × String)
insert_all env [] = env
insert_all env ((key, value) ∷ entries) = insert_all (insert key value env) entries

unfoldable pub ray_runtime_env : Option RuntimeConfig → List (String × String)
unfolding insert
ray_runtime_env runtime =
    let env : List (String × String) =
      ("RAY_DEFAULT_OBJECT_STORE_MEMORY_PROPORTION", "0.1")
      ∷ ("DOCKER_CONFIG", "/root/.docker")
      ∷ ("RAY_enable_open_telemetry", "false")
      ∷ ("RAY_EXPERIMENTAL_RUNTIME_ENV_CONTAINER_RUNTIME", "docker")
      ∷ ("RAY_process_group_cleanup_enabled", "true")
      ∷ [] in
    elim runtime [ none ↦ env | some config ↦ insert_all env config.env ]

unfoldable pub ray_runtime_docker_run_options : Option RuntimeConfig → List String
ray_runtime_docker_run_options runtime =
    let options : List String =
      "--net=host" ∷ "--ulimit nofile=65536:65536"
      ∷ "--volume /var/run/docker.sock:/var/run/docker.sock"
      ∷ "--volume /etc/neutree/docker:/root/.docker:ro" ∷ "--volume /tmp:/tmp" ∷ "--pid=host"
      ∷ "--ipc=host" ∷ [] in
    elim runtime [
      | none ↦ options
      | some config ↦
          options
          ++ ((if is_blank config.runtime then [] else concat "--runtime=" config.runtime ∷ [])
              ++ config.options)
    ]

unfoldable pub cluster_runtime_image_suffix : Option RuntimeConfig → String
cluster_runtime_image_suffix none = ""
cluster_runtime_image_suffix (some config) = config.image_suffix

abbrev pub cluster_runtime : Option AcceleratorProfile → Option RuntimeConfig
cluster_runtime none = none
cluster_runtime (some profile) = profile.cluster_runtime

unfoldable pub ray_node_labels : Option StaticNodeCluster → StaticNodeRole → List (String × String)
ray_node_labels cluster role =
    elim (cluster_spec cluster) [
      | none ↦ []
      | some spec ↦
          if is_blank spec.version then [] else ("neutree.ai/cluster-version", spec.version) ∷ []
    ]
    ++ (if is_worker role then ("neutree.ai/node-provision-type", "static") ∷ [] else [])

abbrev label_texts : List (String × String) → List String
label_texts [] = []
label_texts ((key, value) ∷ labels) =
    concat (json_string key) (concat ":" (json_string value)) ∷ label_texts labels

-- The labels stand in the order of their keys, as `json.Marshal` writes a map.
unfoldable pub ray_node_label_arg : Option StaticNodeCluster → StaticNodeRole → String
unfolding ray_node_labels join json_string
ray_node_label_arg cluster role =
    let labels = ray_node_labels cluster role in
    if is_empty labels
    then ""
    else concat "--labels='{" (concat (join "," (label_texts labels)) "}'")

abbrev common_args : String
common_args =
    "--disable-usage-stats --node-manager-port=8077 --dashboard-agent-listen-port=52365 --min-worker-port=10002 --max-worker-port=20000 --runtime-env-agent-port=56999 --metrics-export-port=54311"

unfoldable pub ray_start_command : Option StaticNodeCluster → StaticNodeRole → String
unfolding ray_node_label_arg join static_node_cluster_head_ip
ray_start_command cluster role = join " && " (
    "ray stop"
    ∷ "ulimit -n 65536"
    ∷ (if is_head role
        then join " " (
            "python /home/ray/start.py --head --port=6379 --dashboard-host=0.0.0.0"
            ∷ common_args
            ∷ "--dashboard-port=8265"
            ∷ "--ray-client-server-port=10001"
            ∷ "--block"
            ∷ ray_node_label_arg cluster role
            ∷ [])
        else join " " (
            concat "python /home/ray/start.py --address="
              (concat (static_node_cluster_head_ip cluster) ":6379")
            ∷ common_args
            ∷ "--block"
            ∷ ray_node_label_arg cluster role
            ∷ []))
    ∷ [])

unfoldable pub build_ray_runtime_image : Option StaticNodeCluster → String → String
unfolding build_cluster_image_ref trim_right_char
build_ray_runtime_image cluster image_suffix = elim (cluster_spec cluster) [
  | none ↦ ""
  | some spec ↦
      if is_blank spec.version
      then ""
      else if is_blank spec.image_registry
      then ""
      else build_cluster_image_ref (trim_right_char spec.image_registry b'/') spec.version
          image_suffix
]

unfoldable pub build_ray_component :
    Option StaticNodeCluster → StaticNodeRole → Option AcceleratorProfile → NodeComponentSpec
unfolding build_ray_runtime_image cluster_runtime_image_suffix ray_runtime_env
    ray_runtime_docker_run_options ray_start_command
build_ray_component cluster role profile =
    let runtime = cluster_runtime profile in
    record {
      name = if is_head role then ray_head_component_name else ray_worker_component_name;
      image = build_ray_runtime_image cluster (cluster_runtime_image_suffix runtime);
      command = "/bin/bash" ∷ "-lc" ∷ [];
      args = ray_start_command cluster role ∷ [];
      env = ray_runtime_env runtime;
      ports = [];
      volumes = [];
      docker_run_options = ray_runtime_docker_run_options runtime;
      config_files = [];
      health_check = some (record {
        command = [];
        http_host = "";
        http_path = "";
        port = pos raylet_metrics_port;
        initial_delay_sec = pos 0;
        interval_sec = pos 0;
        timeout_sec = pos 0;
      });
      config_hash = "";
      allocated = all_nil;
    }

abbrev pub warm_image_name : String → String
warm_image_name name = if is_ray_component_name name then "ray-runtime" else name

-- The loop of `buildNodeWarmSpec`, with the images seen so far.
unfoldable pub warm_images_from : List String → List NodeComponentSpec → List WarmImageSpec
warm_images_from seen [] = []
warm_images_from seen (component ∷ components) =
    let skipped = warm_images_from seen components in
    let added =
      record { name = warm_image_name component.name; ref = component.image; required = true }
      ∷ warm_images_from (component.image ∷ seen) components in
    if is_blank component.image
    then skipped
    else if contains seen component.image
    then skipped
    else added

unfoldable pub build_node_warm_spec : List NodeComponentSpec → Option WarmSpec
unfolding warm_images_from
build_node_warm_spec components =
    let images = warm_images_from [] components in
    if is_empty images then none else some (record { images = images; images_allocated = false })
