-- ===== src/StaticCluster/Metrics/Files.antt =====
-- metrics_components.go: the files of the head's agent, and the template of its configuration.
use Prim.Native.String.{◌++◌ as concat}
use neutree.Prelude.{
  ℕ, suc, String, Bool, true, false, not, List, [], ◌∷◌, ◌++◌, ◌==◌, is_blank, is_empty, keep, map,
  if◌then◌else◌,
}
use neutree.Prelude.Dict.{insert}
use neutree.Prelude.Int.{pos}
use neutree.Strings.{trim_prefix}
use neutree.Api.Component.{NodeComponentConfigFile}
use neutree.Api.StaticNodeCluster.{StaticNodeCluster}
use neutree.StaticCluster.Plan.{DesiredNodePlan, sort_plans}
use neutree.StaticCluster.RayRuntime.{raylet_metrics_port}
use neutree.StaticCluster.Metrics.{
  MetricsLibrary, VmagentFileSdTarget, node_exporter_component_name, node_agent_component_name,
  accelerator_exporter_component_name, default_node_exporter_port, default_node_agent_port,
  default_prometheus_http_path, vmagent_config_path,
}
use neutree.StaticCluster.Metrics.Targets.{
  AcceleratorExporterTarget, AcceleratorExporterTargetGroup, vmagent_file_sd_dir, plan_has,
  has_ray_component, component_targets, vmagent_target_labels, address,
  accelerator_exporter_job_name, accelerator_exporter_target_group_job_name,
  accelerator_exporter_target_groups,
}

abbrev in_file_sd_dir : String → String
in_file_sd_dir name = concat vmagent_file_sd_dir (concat "/" name)

abbrev pub vmagent_node_exporter_file_sd_path : String
vmagent_node_exporter_file_sd_path = "/etc/neutree/vmagent/file_sd/node-exporter.json"

abbrev pub vmagent_node_agent_file_sd_path : String
vmagent_node_agent_file_sd_path = "/etc/neutree/vmagent/file_sd/node-agent.json"

abbrev pub vmagent_ray_file_sd_path : String
vmagent_ray_file_sd_path = "/etc/neutree/vmagent/file_sd/ray.json"

unfoldable pub accelerator_exporter_file_sd_path : String → String
unfolding accelerator_exporter_job_name trim_prefix
accelerator_exporter_file_sd_path metrics_path =
    in_file_sd_dir
      (concat (trim_prefix (accelerator_exporter_job_name metrics_path "0") "static-node-") ".json")

unfoldable pub accelerator_exporter_target_group_file_sd_path :
    AcceleratorExporterTargetGroup → String
unfolding accelerator_exporter_file_sd_path
accelerator_exporter_target_group_file_sd_path group =
    if is_blank group.job_name
    then accelerator_exporter_file_sd_path group.metrics_path
    else in_file_sd_dir (concat group.job_name ".json")

pub record StaticVmagentScrapeConfig : Type 0 where
  pub job_name : String
  pub metrics_path : String
  pub file_sd_path : String
  pub metric_relabel_configs : String

abbrev pub static_vmagent_ray_metric_relabel_configs : String
static_vmagent_ray_metric_relabel_configs =
    "    - source_labels: [application]\n      target_label: application_original\n      regex: '(.+)'\n      replacement: '$1'\n    - source_labels: [application]\n      regex: '([^_]+)_(.+)'\n      target_label: application\n      replacement: '$2'\n    - source_labels: [__name__]\n      regex: 'ray_vllm[:_](.+)'\n      target_label: __name__\n      replacement: 'vllm:$1'\n    - source_labels: [__name__]\n      regex: 'ray_sglang[:_](.+)'\n      target_label: __name__\n      replacement: 'sglang:$1'\n"

-- The template, for one scrape config.
unfoldable pub render_scrape_config : StaticVmagentScrapeConfig → String
render_scrape_config config = concat "- job_name: " (
    concat config.job_name (
      concat "\n" (
        concat
          (if is_blank config.metrics_path
            then ""
            else concat "  metrics_path: " (concat config.metrics_path "\n"))
          (concat "  file_sd_configs:\n  - files:\n    - " (
            concat config.file_sd_path (
              concat "\n" (
                if is_blank config.metric_relabel_configs
                then ""
                else concat "  metric_relabel_configs:\n" config.metric_relabel_configs)))))))

abbrev render_scrape_configs : List StaticVmagentScrapeConfig → String
unfolding render_scrape_config
render_scrape_configs [] = ""
render_scrape_configs (config ∷ configs) =
    concat (render_scrape_config config) (render_scrape_configs configs)

unfoldable pub must_render_static_vmagent_config : List StaticVmagentScrapeConfig → String
unfolding render_scrape_configs
must_render_static_vmagent_config configs =
    concat "global:\n  scrape_interval: 30s\n  scrape_timeout: 30s\nscrape_configs:\n"
      (render_scrape_configs configs)

abbrev scrape_config : String → String → StaticVmagentScrapeConfig
scrape_config job_name file_sd_path = record {
  job_name = job_name;
  metrics_path = "";
  file_sd_path = file_sd_path;
  metric_relabel_configs = "";
}

abbrev pub has_target : String → List DesiredNodePlan → Bool
has_target name plans = not (is_empty (keep (plan_has name) plans))

-- `library` are the functions of Go's libraries.
module _ (library : MetricsLibrary) (cluster : StaticNodeCluster) where
  -- The scrape configs of the groups, from the index of the first on.
  unfoldable pub group_scrape_configs :
      ℕ → List AcceleratorExporterTargetGroup → List StaticVmagentScrapeConfig
  unfolding accelerator_exporter_target_group_job_name
      accelerator_exporter_target_group_file_sd_path
  group_scrape_configs i [] = []
  group_scrape_configs i (group ∷ groups) =
      record {
        job_name = accelerator_exporter_target_group_job_name group i;
        metrics_path =
            if group.metrics_path == default_prometheus_http_path
            then ""
            else library.quote group.metrics_path;
        file_sd_path = library.quote (accelerator_exporter_target_group_file_sd_path group);
        metric_relabel_configs = "";
      }
      ∷ group_scrape_configs (suc i) groups

  unfoldable pub scrape_configs : List DesiredNodePlan → List StaticVmagentScrapeConfig
  unfolding group_scrape_configs accelerator_exporter_target_groups
  scrape_configs plans =
      (if has_target node_exporter_component_name plans
        then scrape_config "static-node-node-exporter"
            (library.quote vmagent_node_exporter_file_sd_path)
          ∷ []
        else [])
      ++ ((if has_target node_agent_component_name plans
            then scrape_config "static-node-node-agent"
                (library.quote vmagent_node_agent_file_sd_path)
              ∷ []
            else [])
          ++ (record {
            job_name = "static-node-ray";
            metrics_path = "";
            file_sd_path = library.quote vmagent_ray_file_sd_path;
            metric_relabel_configs = static_vmagent_ray_metric_relabel_configs;
          }
              ∷ group_scrape_configs 0 (accelerator_exporter_target_groups cluster plans)))

  unfoldable pub render_vmagent_config : List DesiredNodePlan → String
  unfolding sort_plans scrape_configs must_render_static_vmagent_config
  render_vmagent_config plans =
      must_render_static_vmagent_config (scrape_configs (sort_plans plans))

  unfoldable pub must_marshal_vmagent_file_sd_targets : List VmagentFileSdTarget → String
  must_marshal_vmagent_file_sd_targets targets = concat (library.marshal_indent targets) "\n"

  abbrev exporter_target : AcceleratorExporterTarget → VmagentFileSdTarget
  unfolding insert vmagent_target_labels
  exporter_target target =
      let labels =
        vmagent_target_labels cluster target.node target.spec accelerator_exporter_component_name in
      record {
        targets = address target.spec target.port ∷ [];
        labels =
            if is_blank target.accelerator_type
            then labels
            else insert "accelerator_type" target.accelerator_type labels;
      }

  abbrev pub vmagent_file_sd_config_file : String → String → NodeComponentConfigFile
  vmagent_file_sd_config_file path content = record {
    path = path;
    content = content;
    mode = "0644";
    owner = "root";
    group = "root";
    sudo = true;
    atomic = true;
    create_parent = true;
    skip_restart_on_change = true;
  }

  unfoldable pub group_config_file : AcceleratorExporterTargetGroup → NodeComponentConfigFile
  unfolding exporter_target must_marshal_vmagent_file_sd_targets
      accelerator_exporter_target_group_file_sd_path
  group_config_file group =
      vmagent_file_sd_config_file (accelerator_exporter_target_group_file_sd_path group)
        (must_marshal_vmagent_file_sd_targets (map exporter_target group.targets))

  -- The file of the nodes with that component, where there is one.
  unfoldable pub component_config_files :
      String → ℕ → String → List DesiredNodePlan → List NodeComponentConfigFile
  unfolding component_targets must_marshal_vmagent_file_sd_targets
  component_config_files name port path plans =
      if has_target name plans
      then vmagent_file_sd_config_file path (
          must_marshal_vmagent_file_sd_targets
            (component_targets cluster (plan_has name) name (pos port) plans))
        ∷ []
      else []

  unfoldable pub render_vmagent_file_sd_config_files :
      List DesiredNodePlan → List NodeComponentConfigFile
  unfolding component_targets must_marshal_vmagent_file_sd_targets component_config_files
      group_config_file accelerator_exporter_target_groups
  render_vmagent_file_sd_config_files plans =
      vmagent_file_sd_config_file vmagent_ray_file_sd_path (
        must_marshal_vmagent_file_sd_targets
          (component_targets cluster has_ray_component "ray" (pos raylet_metrics_port) plans))
      ∷ (component_config_files node_exporter_component_name default_node_exporter_port
            vmagent_node_exporter_file_sd_path plans
          ++ (component_config_files node_agent_component_name default_node_agent_port
                vmagent_node_agent_file_sd_path plans
              ++ map group_config_file (accelerator_exporter_target_groups cluster plans)))

  -- The files that `attachMetricsConfigFiles` appends.
  unfoldable pub vmagent_config_files : List DesiredNodePlan → List NodeComponentConfigFile
  unfolding render_vmagent_config render_vmagent_file_sd_config_files
  vmagent_config_files plans =
      record {
        path = vmagent_config_path;
        content = render_vmagent_config plans;
        mode = "0644";
        owner = "root";
        group = "root";
        sudo = true;
        atomic = true;
        create_parent = true;
        skip_restart_on_change = false;
      }
      ∷ render_vmagent_file_sd_config_files plans
