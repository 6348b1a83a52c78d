-- ===== src/StaticNode/Devices.antt =====
-- reconciler.go: the accelerator of a node, detected once and then merged with what the node's
-- agent reports.
use neutree.Prelude.{
  String, Bool, true, false, not, ◌&&◌, ◌||◌, Option, none, some, List, [], ◌∷◌, ◌==◌, ◌≡◌, follow,
  is_blank, is_empty, map, arith, if◌then◌else◌,
}
use neutree.Prelude.Int.{is_zero}
use neutree.Prelude.Dict.{lookup, insert}
use neutree.Prelude.Result.{Result, ok, err}
use neutree.Api.Meta.{Auth}
use neutree.Api.Component.{NodeComponentStatus}
use neutree.Api.StaticNode.{
  StaticNode, StaticNodeAcceleratorStatus, StaticNodeAcceleratorDeviceStatus,
  StaticNodeAllocationStatus, NodeDeviceSnapshot, static_node_accelerator_type_cpu,
  cpu_static_node_accelerator_status,
}
use neutree.StaticNode.Status.{component_is_ready}

-- The type a node's status has for its accelerator, if there is one with a type.
abbrev known_accelerator : Option StaticNode → Option StaticNodeAcceleratorStatus
known_accelerator node = elim (follow (follow node (λ n. n.status)) (λ s. s.accelerator)) [
  | none ↦ none
  | some accelerator ↦ if is_blank accelerator.type then none else some accelerator
]

-- `ReconcileAccelerator`; a nil manager is `none`.
unfoldable pub reconcile_accelerator :
    Option (String → Auth → Result (Option StaticNodeAcceleratorStatus))
    → Option StaticNode
    → Result (Option StaticNodeAcceleratorStatus)
unfolding cpu_static_node_accelerator_status
reconcile_accelerator manager node = elim (known_accelerator node) [
  | some accelerator ↦ ok (some accelerator)
  | none ↦ elim manager [
    | none ↦ ok (some cpu_static_node_accelerator_status)
    | some detect_accelerator ↦ elim (follow node (λ n. n.spec)) [
      | none ↦ err "static node spec is required for accelerator discovery"
      | some spec ↦ elim spec.ssh_auth [
        | none ↦ err "static node spec.ssh_auth is required for accelerator discovery"
        | some ssh_auth ↦ detect_accelerator spec.ip ssh_auth
      ]
    ]
  ]
]

abbrev or_text : String → String → String
or_text text fallback = if is_blank text then fallback else text

unfoldable pub merge_static_node_device_snapshot_device :
    StaticNodeAcceleratorDeviceStatus
    → StaticNodeAcceleratorDeviceStatus
    → StaticNodeAcceleratorDeviceStatus
merge_static_node_device_snapshot_device fallback snapshot = record snapshot {
  id = or_text snapshot.id fallback.id;
  product_name = or_text snapshot.product_name fallback.product_name;
  product_model = or_text snapshot.product_model fallback.product_model;
  memory_mib = if is_zero snapshot.memory_mib then fallback.memory_mib else snapshot.memory_mib;
  minor_number = elim snapshot.minor_number [
    | none ↦ fallback.minor_number
    | some minor ↦ some minor
  ];
}

-- The map from UUIDs to devices, from the map built so far.
unfoldable pub devices_by_uuid :
    List (String × StaticNodeAcceleratorDeviceStatus)
    → List StaticNodeAcceleratorDeviceStatus
    → List (String × StaticNodeAcceleratorDeviceStatus)
unfolding insert
devices_by_uuid by_uuid [] = by_uuid
devices_by_uuid by_uuid (device ∷ devices) =
    devices_by_uuid (if is_blank device.uuid then by_uuid else insert device.uuid device by_uuid)
      devices

unfoldable pub merge_device :
    List (String × StaticNodeAcceleratorDeviceStatus)
    → StaticNodeAcceleratorDeviceStatus
    → StaticNodeAcceleratorDeviceStatus
unfolding lookup merge_static_node_device_snapshot_device
merge_device by_uuid device = elim (lookup device.uuid by_uuid) [
  | none ↦ device
  | some fallback ↦ merge_static_node_device_snapshot_device fallback device
]

unfoldable pub merge_static_node_device_snapshot_accelerator :
    Option StaticNodeAcceleratorStatus → StaticNodeAcceleratorStatus → StaticNodeAcceleratorStatus
unfolding devices_by_uuid merge_device
merge_static_node_device_snapshot_accelerator none snapshot = snapshot
merge_static_node_device_snapshot_accelerator (some fallback) snapshot =
    if is_empty fallback.devices || is_empty snapshot.devices
    then snapshot
    else if is_blank snapshot.type
    then snapshot
    else record snapshot {
      devices = map (merge_device (devices_by_uuid [] fallback.devices)) snapshot.devices;
    }

-- `v1.NodeAgent`'s component.
abbrev node_agent_component_name : String
node_agent_component_name = "neutree-node-agent"

-- Whether the first status of the agent is one of a component that runs.
unfoldable pub agent_in : List NodeComponentStatus → Option Bool
agent_in [] = none
agent_in (status ∷ statuses) =
    if status.name == node_agent_component_name
    then some (component_is_ready status)
    else agent_in statuses

unfoldable pub agent_in_groups : List (List NodeComponentStatus) → Bool
unfolding agent_in
agent_in_groups [] = false
agent_in_groups (statuses ∷ groups) = elim (agent_in statuses) [
  | none ↦ agent_in_groups groups
  | some ready ↦ ready
]

unfoldable pub node_agent_ready : List (List NodeComponentStatus) → Bool
unfolding agent_in_groups
node_agent_ready groups = if is_empty groups then true else agent_in_groups groups

-- A nil slice is `none`.
unfoldable pub current_static_node_allocations :
    Option StaticNode → Option (List StaticNodeAllocationStatus)
current_static_node_allocations node =
    follow (follow node (λ n. n.status)) (λ s. some s.allocations)

unfoldable pub snapshot_static_node_allocations :
    Option NodeDeviceSnapshot → Option (List StaticNodeAllocationStatus)
snapshot_static_node_allocations none = none
snapshot_static_node_allocations (some snapshot) = elim snapshot.allocations [
  | none ↦ some []
  | some allocations ↦ some allocations
]

-- `fallback != nil && fallback.Type == v1.StaticNodeAcceleratorTypeCPU`
abbrev is_cpu : Option StaticNodeAcceleratorStatus → Bool
is_cpu none = false
is_cpu (some accelerator) = accelerator.type == static_node_accelerator_type_cpu

-- A type that is neither empty nor the CPU's.
abbrev pub is_device_type : Option StaticNodeAcceleratorStatus → Bool
is_device_type none = false
is_device_type (some accelerator) =
    not (is_blank accelerator.type) && not (accelerator.type == static_node_accelerator_type_cpu)

-- The accelerator that a snapshot leaves.
unfoldable pub accept_accelerator :
    Option StaticNodeAcceleratorStatus
    → StaticNodeAcceleratorStatus
    → Option StaticNodeAcceleratorStatus
accept_accelerator fallback accelerator =
    if is_blank accelerator.type
    then fallback
    else if accelerator.type == static_node_accelerator_type_cpu && is_device_type fallback
    then fallback
    else some accelerator

-- `ReconcileNodeDeviceSnapshot`. The client is never nil: without one the code makes the HTTP one.
unfoldable pub reconcile_node_device_snapshot :
    (Option StaticNode → Result (Option NodeDeviceSnapshot))
    → Option StaticNode
    → Option StaticNodeAcceleratorStatus
    → List (List NodeComponentStatus)
    → Option StaticNodeAcceleratorStatus × Option (List StaticNodeAllocationStatus)
unfolding merge_static_node_device_snapshot_accelerator current_static_node_allocations
    snapshot_static_node_allocations accept_accelerator
reconcile_node_device_snapshot device_snapshot node fallback component_statuses =
    if is_cpu fallback
    then (fallback, current_static_node_allocations node)
    else if not (node_agent_ready component_statuses)
    then (fallback, current_static_node_allocations node)
    else elim (device_snapshot node) [
      | err error ↦ (fallback, current_static_node_allocations node)
      | ok read ↦ elim read [
        | none ↦ (fallback, current_static_node_allocations node)
        | some snapshot ↦ (
          accept_accelerator fallback
              (merge_static_node_device_snapshot_accelerator fallback snapshot.accelerator),
          snapshot_static_node_allocations (some snapshot),
        )
      ]
    ]

accept-is_device_type :
    (fallback : Option StaticNodeAcceleratorStatus) (accelerator : StaticNodeAcceleratorStatus)
    → is_device_type fallback ≡ true
    → is_device_type (accept_accelerator fallback accelerator) ≡ true
unfolding accept_accelerator
accept-is_device_type fallback accelerator known = ground (arith, known)

-- No snapshot, and no failure to read one, turns a node with a known device type into one without
-- devices or with a CPU only.
pub snapshot-is_device_type :
    (device_snapshot : Option StaticNode → Result (Option NodeDeviceSnapshot))
    (node : Option StaticNode) (fallback : Option StaticNodeAcceleratorStatus)
    (component_statuses : List (List NodeComponentStatus))
    → is_device_type fallback ≡ true
    → is_device_type
        (reconcile_node_device_snapshot device_snapshot node fallback component_statuses).0
      ≡ true
unfolding reconcile_node_device_snapshot
snapshot-is_device_type device_snapshot current fallback component_statuses known =
    let kept = accept-is_device_type fallback in ground (arith, known, kept)
