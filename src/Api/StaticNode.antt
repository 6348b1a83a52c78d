-- ===== src/Api/StaticNode.antt =====
-- The static node (api/v1/static_node_cluster_types.go) and a device allocation
-- (api/v1/endpoint_types.go).
use neutree.Prelude.{ℕ, String, String-discrete, Bool, List, [], Option, ◌&&◌, is_empty, map}
use neutree.Prelude.Int.{ℤ, ℤ_discrete}
use neutree.Api.Meta.{Metadata, Auth}
use neutree.Api.Component.{
  NodeComponentSpec, NodeComponentStatus, WarmSpec, WarmStatus, NodeComponentSpec-discrete,
  WarmSpec-discrete, component_content, warm_content,
}

-- Any text is a role: the code tells the two constants apart from the rest.
pub data StaticNodeRole : Type 0 where
  head worker : StaticNodeRole
  other : String → StaticNodeRole

pub record StaticNodeSpec : Type 0 where
  pub cluster : String
  pub ip : String
  pub role : StaticNodeRole
  pub ssh_auth : Option Auth
  pub warm : Option WarmSpec
  pub components : List NodeComponentSpec
  -- The slice is allocated though it is empty.
  pub components_allocated : Bool

pub data StaticNodePhase : Type 0 where
  unset pending warming reconciling ready failed : StaticNodePhase

abbrev pub static_node_accelerator_type_cpu : String
static_node_accelerator_type_cpu = "cpu"

pub record StaticNodeAcceleratorDeviceStatus : Type 0 where
  pub id : String
  pub uuid : String
  pub product_name : String
  pub product_model : String
  pub minor_number : Option ℤ
  pub memory_mib : ℤ
  pub healthy : Bool

pub record StaticNodeAcceleratorStatus : Type 0 where
  pub type : String
  pub devices : List StaticNodeAcceleratorDeviceStatus

pub record DeviceAllocation : Type 0 where
  pub uuid : String
  pub product : String
  pub order : Option ℤ
  pub vdevice_index : String
  pub memory_mib : ℤ
  pub used_memory_mib : ℤ
  pub core_units : ℤ
  pub node_id : String

pub record StaticNodeAllocationStatus : Type 0 where
  pub workload_type : String
  pub workspace : String
  pub endpoint : String
  pub instance_id : String
  pub replica_id : String
  pub runtime_id : String
  pub pid : ℤ
  pub devices : List DeviceAllocation

pub record NodeDeviceSnapshot : Type 0 where
  pub accelerator : StaticNodeAcceleratorStatus
  -- A nil slice is `none` here: `snapshotStaticNodeAllocations` tests for it.
  pub allocations : Option (List StaticNodeAllocationStatus)

pub record StaticNodeStatus : Type 0 where
  pub phase : StaticNodePhase
  pub accelerator : Option StaticNodeAcceleratorStatus
  pub allocations : List StaticNodeAllocationStatus
  pub warm : Option WarmStatus
  pub components : List NodeComponentStatus
  pub last_transition_time : String
  pub error_message : String

pub record StaticNode : Type 0 where
  pub id : ℕ
  pub api_version : String
  pub kind : String
  pub metadata : Metadata
  pub spec : Option StaticNodeSpec
  pub status : Option StaticNodeStatus

-- `CPUStaticNodeAcceleratorStatus`
unfoldable pub cpu_static_node_accelerator_status : StaticNodeAcceleratorStatus
cpu_static_node_accelerator_status = record {
  type = static_node_accelerator_type_cpu;
  devices = [];
}

pub StaticNodeSpec-discrete : Discrete StaticNodeSpec
StaticNodeSpec-discrete = hlevel (String-discrete, NodeComponentSpec-discrete, WarmSpec-discrete)

-- What `reflect.DeepEqual` sees of a spec.
unfoldable pub spec_content : StaticNodeSpec → StaticNodeSpec
unfolding component_content warm_content
spec_content spec = record spec {
  warm = warm_content spec.warm;
  components = map component_content spec.components;
  components_allocated = is_empty spec.components && spec.components_allocated;
}

pub StaticNodeStatus-discrete : Discrete StaticNodeStatus
StaticNodeStatus-discrete = hlevel (String-discrete, ℤ_discrete)
