-- ===== src/Examples/Metrics.antt =====
-- The components that measure a node with an accelerator, and their targets.
use neutree.Prelude.{
  String, true, false, none, some, [], ◌∷◌, ◌++◌, ◌≡◌, refl, contains, map, not, ap, arith,
  is_blank, ◌&&◌,
}
use neutree.Prelude.Int.{pos}
use neutree.Strings.{trim_space}
use neutree.Api.Accelerator.{
  AcceleratorProfile, AcceleratorExporterProfile, AcceleratorExporterRuntimeProfile,
}
use neutree.Api.Component.{NodeComponentSpec, component_content}
use neutree.Api.StaticNode.{head, worker}
use neutree.StaticCluster.Plan.{DesiredNodePlan}
use neutree.StaticCluster.NodePlan.{build_node_components}
use neutree.StaticCluster.RayRuntime.Warm.{is_distinct}
use neutree.StaticCluster.Metrics.{build_accelerator_exporter_component}
use neutree.StaticCluster.Metrics.Components.{append_docker_run_options_unique, node_agent_options}
use neutree.StaticCluster.Metrics.Components.Names.{names, build_node_components-is_distinct}
use neutree.StaticCluster.Metrics.Components.Options.{append_docker_run_options_unique-contains}
use neutree.StaticCluster.Metrics.Targets.{managed_groups}
use neutree.StaticCluster.Metrics.Targets.Groups.{
  targets_at, of_type, managed_targets, managed_groups-targets,
}
use neutree.Examples.Data.{cluster_from, spec_of, node_of, head_running}
use neutree.Examples.Plans.{planner}

abbrev exporter_runtime : AcceleratorExporterRuntimeProfile
exporter_runtime = record {
  host_network = true;
  host_pid = false;
  capabilities = none;
  docker_run_options = "--gpus=all" ∷ " --gpus=all" ∷ [];
}

abbrev dcgm : AcceleratorExporterProfile
dcgm = record {
  name = "dcgm";
  image = "nvidia/dcgm-exporter:3.3";
  args = [];
  port = pos 19400;
  metrics_path = "metrics";
  env = ("NVIDIA_VISIBLE_DEVICES", "all") ∷ [];
  config_files = [];
  runtime = some exporter_runtime;
}

abbrev gpu_profile : AcceleratorProfile
gpu_profile = record {
  accelerator_type = "nvidia_gpu";
  cluster_runtime = none;
  engine_runtime = none;
  metrics_exporter = some dcgm;
}

build_node_components-is_distinct_example :
    is_distinct (
      names (
        build_node_components planner
          (cluster_from "v2")
          (head_running "ray:v2")
          head
          (some gpu_profile)))
    ≡ true
build_node_components-is_distinct_example =
    build_node_components-is_distinct planner (cluster_from "v2") (head_running "ray:v2") head
      (some gpu_profile)

append_docker_run_options_unique-contains_example :
    (contains
        (append_docker_run_options_unique node_agent_options exporter_runtime.docker_run_options)
        "--gpus=all"
      ≡ (not (is_blank "--gpus=all")
          && contains
              (map trim_space (node_agent_options ++ exporter_runtime.docker_run_options))
              "--gpus=all"))
    × (is_distinct
          (append_docker_run_options_unique node_agent_options exporter_runtime.docker_run_options)
        ≡ true)
append_docker_run_options_unique-contains_example =
    append_docker_run_options_unique-contains node_agent_options exporter_runtime.docker_run_options
      "--gpus=all"

-- The exporter is planned with arguments that are empty and not nil; a component whose arguments
-- are nil, as the storage gives them, never has the same content.
empty_args_allocated :
    (component_content
      (build_accelerator_exporter_component (some (cluster_from "v2")) dcgm)).allocated.args
    ≡ true
unfolding component_content build_accelerator_exporter_component
empty_args_allocated = refl

nil_args :
    (stored : NodeComponentSpec)
    → stored.allocated.args ≡ false
    → ¬ (
        component_content stored
        ≡ component_content (build_accelerator_exporter_component (some (cluster_from "v2")) dcgm))
unfolding component_content build_accelerator_exporter_component
nil_args stored e same = let args = ap (λ c. c.allocated.args) same in ground (arith, e, args)

-- The plan of a node with that exporter.
abbrev gpu_plan : String → DesiredNodePlan
gpu_plan name = record {
  node = some (
      node_of name
        (spec_of "10.0.0.9" worker
          (build_accelerator_exporter_component (some (cluster_from "v2")) dcgm ∷ []))
        none);
  accelerator = some (record { type = "nvidia_gpu"; devices = [] });
  target_components = [];
}

managed_groups-targets_example :
    targets_at "nvidia_gpu" (managed_groups [] (gpu_plan "a" ∷ gpu_plan "b" ∷ []))
    ≡ of_type "nvidia_gpu" (managed_targets (gpu_plan "a" ∷ gpu_plan "b" ∷ []))
managed_groups-targets_example =
    managed_groups-targets (gpu_plan "a" ∷ gpu_plan "b" ∷ []) "nvidia_gpu"
