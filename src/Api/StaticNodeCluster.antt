-- ===== src/Api/StaticNodeCluster.antt =====
-- The static-node cluster (api/v1/static_node_cluster_types.go), and the parts of
-- api/v1/cluster_types.go in its spec.
use neutree.Prelude.{ℕ, String, Bool, List, Option}
use neutree.Api.Meta.{Metadata, Auth}
use neutree.Api.StaticNode.{StaticNodeRole}

pub record ClusterAcceleratorExporterConfig : Type 0 where
  pub mode : String

pub record ClusterMetricsConfig : Type 0 where
  pub accelerator_exporter : Option ClusterAcceleratorExporterConfig

pub record ClusterUpgradeStrategy : Type 0 where
  pub type : String

pub record StaticNodeClusterNodeSpec : Type 0 where
  pub name : String
  pub ip : String
  pub role : StaticNodeRole
  pub ssh_auth : Option Auth

pub record StaticNodeClusterSpec : Type 0 where
  pub version : String
  pub image_registry : String
  pub metrics : Option ClusterMetricsConfig
  pub nodes : List StaticNodeClusterNodeSpec
  pub upgrade_strategy : Option ClusterUpgradeStrategy

pub data StaticNodeClusterPhase : Type 0 where
  unset provisioning upgrading ready failed : StaticNodeClusterPhase

pub record StaticNodeClusterStatus : Type 0 where
  pub phase : StaticNodeClusterPhase
  pub desired_nodes : ℕ
  pub ready_nodes : ℕ
  pub head_ready : Bool
  pub warm_ready : Bool
  pub version : String
  pub last_transition_time : String
  pub error_message : String

pub record StaticNodeCluster : Type 0 where
  pub id : ℕ
  pub api_version : String
  pub kind : String
  pub metadata : Metadata
  pub spec : Option StaticNodeClusterSpec
  pub status : Option StaticNodeClusterStatus
