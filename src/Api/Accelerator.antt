-- ===== src/Api/Accelerator.antt =====
-- The accelerator profile that a plugin gives (api/v1/accelerator_plugin.go).
use neutree.Prelude.{String, Bool, List, Option}
use neutree.Prelude.Int.{ℤ}

pub record RuntimeConfig : Type 0 where
  pub image_suffix : String
  pub env : List (String × String)
  pub runtime : String
  pub options : List String

pub record AcceleratorExporterConfigFile : Type 0 where
  pub path : String
  pub content : String
  pub mode : String
  pub owner : String
  pub group : String
  pub sudo : Bool
  pub atomic : Bool
  pub create_parent : Bool
  pub skip_restart_on_change : Bool

pub record AcceleratorExporterCapabilities : Type 0 where
  pub add : List String

-- Without the node selector, which is for Kubernetes only.
pub record AcceleratorExporterRuntimeProfile : Type 0 where
  pub host_network : Bool
  pub host_pid : Bool
  pub capabilities : Option AcceleratorExporterCapabilities
  pub docker_run_options : List String

pub record AcceleratorExporterProfile : Type 0 where
  pub name : String
  pub image : String
  pub args : List String
  pub port : ℤ
  pub metrics_path : String
  pub env : List (String × String)
  pub config_files : List AcceleratorExporterConfigFile
  pub runtime : Option AcceleratorExporterRuntimeProfile

pub record AcceleratorProfile : Type 0 where
  pub accelerator_type : String
  pub cluster_runtime : Option RuntimeConfig
  pub engine_runtime : Option RuntimeConfig
  pub metrics_exporter : Option AcceleratorExporterProfile
