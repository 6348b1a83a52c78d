-- ===== src/Examples/Nodes.antt =====
-- The reconciler of the worker, on a host that is a log of the commands it was given.
use neutree.Prelude.{
  String, true, false, not, ◌&&◌, ◌||◌, Option, none, some, List, [], ◌∷◌, ◌≡◌, ◌↔◌, refl, map,
  contains,
}
use neutree.Prelude.Result.{Result, ok}
use neutree.Api.Component.{NodeComponentSpec, NodeComponentStatus, WarmSpec, running}
use neutree.Api.StaticNode.{
  StaticNode, StaticNodeSpec, StaticNodeAcceleratorStatus, NodeDeviceSnapshot, worker,
  cpu_static_node_accelerator_status,
}
use neutree.StaticCluster.Names.{is_worker}
use neutree.StaticNode.Status.{
  ReconcileResult, observed_status, build_status, build_status-transition,
}
use neutree.StaticNode.Status.{is_ready}
use neutree.StaticNode.Status.Ready.{IsUp, build_status-ready_iff}
use neutree.StaticNode.Head.{
  shows_ready_head, head_ready, should_wait_for_head, should_wait-head_ready,
}
use neutree.StaticNode.Devices.{
  reconcile_node_device_snapshot, is_device_type, snapshot-is_device_type,
}
use neutree.StaticNode.Login.{RegistryAuth, Encoding, new_docker_runtime_with, redact_secret}
use neutree.StaticNode.Login.Authorized.{IsAuthorized, new_docker_runtime_with-IsAuthorized}
use neutree.StaticNode.Removal.{
  static_node_delete_components, spec_components_of, status_components_of, delete_components-names,
}
use neutree.StaticNode.RunCommand.{shell_arg}
use neutree.StaticNode.Quoting.{shell_word, outside, shell_word-shell_arg}
use neutree.StaticNode.Warm.{reconcile_warm_images}
use neutree.StaticNode.Warm.Ready.{IsWarmed, reconcile_warm_images-ready}
use neutree.StaticNode.Components.{stop_stale_components, reconcile_component, reconcile_components}
use neutree.StaticNode.Components.Running.{
  ReadyIsChecked, reconcile_component-ready, reconcile_components-waits,
}
use neutree.StaticNode.Ends.{Ends}
use neutree.StaticNode.Components.Stopping.{IsRayStopped, reconcile_components-IsRayStopped}
use neutree.Examples.Data.{
  log_host, image_hash, component_of, component_seen, node_of, spec_of, worker_components,
  worker_stopped,
}

abbrev ray_worker : NodeComponentSpec
ray_worker = component_of "ray-worker" "ray:v2"

reconcile_component-ready_example :
    ReadyIsChecked log_host image_hash false none
      (some worker_stopped)
      ray_worker
      (reconcile_component log_host image_hash false none (some worker_stopped) ray_worker [])
reconcile_component-ready_example =
    reconcile_component-ready log_host image_hash false none (some worker_stopped) ray_worker []

reconcile_components-IsRayStopped_example : Ends IsRayStopped (
    reconcile_components log_host image_hash false none
      (some worker_stopped)
      (component_of "node-exporter" "exporter:v1" ∷ [])
      (component_seen "ray-worker" "ray:v1" running true ∷ [])
      [])
reconcile_components-IsRayStopped_example =
    reconcile_components-IsRayStopped log_host image_hash false none (some worker_stopped)
      (λ log text. refl) (component_of "node-exporter" "exporter:v1" ∷ [])
      (component_seen "ray-worker" "ray:v1" running true ∷ []) [] refl refl

-- A storage that holds the worker only.
abbrev lone_worker : String → String → Result (List StaticNode)
lone_worker workspace cluster_name = ok (worker_stopped ∷ [])

abbrev worker_spec : StaticNodeSpec
worker_spec = spec_of "10.0.0.2" worker []

should_wait-head_ready_example :
    (should_wait_for_head (some (head_ready (some lone_worker))) (some worker_stopped)).0
    ≡ (is_worker worker && not (shows_ready_head (lone_worker "default" "c") "default" "c"))
should_wait-head_ready_example = should_wait-head_ready lone_worker worker_stopped worker_spec refl

abbrev stale_statuses : List NodeComponentStatus
stale_statuses = component_seen "node-exporter" "exporter:v1" running true ∷ []

reconcile_components-waits_example :
    (reconcile_components log_host image_hash false
      (some (head_ready (some lone_worker)))
      (some worker_stopped)
      (worker_components "ray:v2")
      stale_statuses
      []).0
    ≡ (stop_stale_components log_host image_hash false
        (some (head_ready (some lone_worker)))
        (some worker_stopped)
        (worker_components "ray:v2")
        stale_statuses
        []).0
reconcile_components-waits_example =
    reconcile_components-waits log_host image_hash false lone_worker worker_stopped worker_spec
      (worker_components "ray:v2") stale_statuses [] refl refl refl

abbrev warm_spec : WarmSpec
warm_spec = record {
  images = record { name = "ray-runtime"; ref = "ray:v2"; required = true } ∷ [];
  images_allocated = false;
}

abbrev warm_node_spec : StaticNodeSpec
warm_node_spec = record worker_spec { warm = some warm_spec }

reconcile_warm_images-ready_example :
    IsWarmed log_host false warm_spec.images
      (reconcile_warm_images log_host false (some (node_of "w" warm_node_spec none)) []).1
reconcile_warm_images-ready_example =
    reconcile_warm_images-ready log_host false (node_of "w" warm_node_spec none) warm_node_spec
      warm_spec [] refl refl

abbrev round : ReconcileResult
round = record {
  accelerator = some cpu_static_node_accelerator_status;
  allocations = none;
  warm = none;
  components = some (component_seen "ray-worker" "ray:v2" running true ∷ []);
}

build_status-ready_iff_example :
    (is_ready (build_status "t1" (some worker_stopped) (some round) none).phase ≡ true)
    ↔ IsUp worker_stopped round none
build_status-ready_iff_example = build_status-ready_iff "t1" worker_stopped round none

build_status-transition_example :
    (build_status "t1" (some worker_stopped) (some round) none).last_transition_time ≡ "t0"
unfolding build_status observed_status
build_status-transition_example =
    build_status-transition "t1" (some worker_stopped) (some round) none refl refl

abbrev gpu : StaticNodeAcceleratorStatus
gpu = record { type = "nvidia_gpu"; devices = [] }

abbrev cpu_snapshot : Option StaticNode → Result (Option NodeDeviceSnapshot)
cpu_snapshot current =
    ok (some (record { accelerator = cpu_static_node_accelerator_status; allocations = none }))

snapshot-is_device_type_example :
    is_device_type
      (reconcile_node_device_snapshot cpu_snapshot (some worker_stopped) (some gpu) []).0
    ≡ true
snapshot-is_device_type_example =
    snapshot-is_device_type cpu_snapshot (some worker_stopped) (some gpu) [] refl

delete_components-names_example :
    contains (map (λ c. c.name) (static_node_delete_components (some worker_stopped))) "ray-worker"
    ≡ (contains (map (λ c. c.name) (spec_components_of worker_stopped)) "ray-worker"
        || contains (map (λ s. s.name) (status_components_of worker_stopped)) "ray-worker")
delete_components-names_example = delete_components-names worker_stopped "ray-worker" refl

shell_word-shell_arg_example :
    shell_word outside (shell_arg "it's $HOME; rm -rf /") ≡ some "it's $HOME; rm -rf /"
shell_word-shell_arg_example = shell_word-shell_arg "it's $HOME; rm -rf /"

abbrev credentials : RegistryAuth
credentials = record { server = "registry"; username = "user"; password = "secret" }

-- A configuration file that names no server.
abbrev no_servers : Encoding
no_servers = record { base64 = λ text. text; auths = λ text. some [] }

new_docker_runtime_with-IsAuthorized_example :
    IsAuthorized log_host no_servers credentials
      (new_docker_runtime_with log_host no_servers credentials [])
new_docker_runtime_with-IsAuthorized_example =
    new_docker_runtime_with-IsAuthorized log_host no_servers credentials [] refl

redacted : redact_secret "bad secret: secrets" "secret" ≡ "bad [REDACTED]: [REDACTED]s"
unfolding redact_secret
redacted = refl

-- The text that stands for a password can hold a short password itself.
redacted_short : redact_secret "bad D" "D" ≡ "bad [REDACTED]"
unfolding redact_secret
redacted_short = refl
