-- ===== src/Examples/Data.antt =====
-- A cluster of a head and a worker, its nodes and its plans, and a host that logs its commands.
use neutree.Prelude.{String, Bool, true, false, Option, none, some, List, [], ◌∷◌}
use neutree.Prelude.Result.{ok}
use neutree.StaticNode.Host.{Host}
use neutree.Api.Meta.{Metadata}
use neutree.Api.Component.{
  all_nil, NodeComponentSpec, NodeComponentStatus, NodeComponentPhase, running, stopped, WarmStatus,
}
use neutree.Api.StaticNode.{
  StaticNode, StaticNodeSpec, StaticNodeStatus, StaticNodePhase, StaticNodeRole, head, worker,
}
use neutree.Api.StaticNodeCluster.{
  StaticNodeCluster, StaticNodeClusterSpec, StaticNodeClusterStatus, StaticNodeClusterPhase,
}
use neutree.StaticCluster.Plan.{DesiredNodePlan}

abbrev pub metadata_of : String → Metadata
metadata_of name = record {
  workspace = "default";
  deletion_timestamp = "";
  creation_timestamp = "";
  update_timestamp = "";
  labels = [];
  annotations = [];
  name = name;
}

abbrev pub component_of : String → String → NodeComponentSpec
component_of name image = record {
  name = name;
  image = image;
  command = [];
  args = [];
  env = [];
  ports = [];
  volumes = [];
  docker_run_options = [];
  config_files = [];
  health_check = none;
  config_hash = "";
  allocated = all_nil;
}

abbrev pub component_seen : String → String → NodeComponentPhase → Bool → NodeComponentStatus
component_seen name image phase ready = record {
  name = name;
  ready = ready;
  phase = phase;
  observed_hash = "";
  observed_image = image;
  reason = "";
  message = "";
  last_transition_time = "";
}

abbrev pub warm_seen : WarmStatus
warm_seen = record {
  ready = true;
  images = [];
  reason = "";
  message = "";
  last_transition_time = "";
}

abbrev pub spec_of : String → StaticNodeRole → List NodeComponentSpec → StaticNodeSpec
spec_of ip role components = record {
  cluster = "c";
  ip = ip;
  role = role;
  ssh_auth = none;
  warm = none;
  components = components;
  components_allocated = false;
}

abbrev pub status_of : List NodeComponentStatus → StaticNodeStatus
status_of components = record {
  phase = StaticNodePhase.ready;
  accelerator = none;
  allocations = [];
  warm = some warm_seen;
  components = components;
  last_transition_time = "t0";
  error_message = "";
}

abbrev pub node_of : String → StaticNodeSpec → Option StaticNodeStatus → StaticNode
node_of name spec status = record {
  id = 1;
  api_version = "v1";
  kind = "StaticNode";
  metadata = metadata_of name;
  spec = some spec;
  status = status;
}

abbrev pub cluster_spec_v2 : StaticNodeClusterSpec
cluster_spec_v2 = record {
  version = "v2";
  image_registry = "registry.local/neutree";
  metrics = none;
  nodes =
      record { name = "w"; ip = "10.0.0.2"; role = worker; ssh_auth = none }
      ∷ record { name = "h"; ip = "10.0.0.1"; role = head; ssh_auth = none }
      ∷ [];
  upgrade_strategy = none;
}

abbrev pub cluster_status_at : String → StaticNodeClusterStatus
cluster_status_at version = record {
  phase = StaticNodeClusterPhase.ready;
  desired_nodes = 2;
  ready_nodes = 2;
  head_ready = true;
  warm_ready = true;
  version = version;
  last_transition_time = "";
  error_message = "";
}

-- The cluster whose status is at `version` and whose spec is at v2.
abbrev pub cluster_from : String → StaticNodeCluster
cluster_from version = record {
  id = 1;
  api_version = "v1";
  kind = "StaticNodeCluster";
  metadata = metadata_of "c";
  spec = some cluster_spec_v2;
  status = some (cluster_status_at version);
}

abbrev pub head_components : String → List NodeComponentSpec
head_components image = component_of "ray-head" image ∷ []

abbrev pub worker_components : String → List NodeComponentSpec
worker_components image = component_of "ray-worker" image ∷ []

-- The head as it runs that image.
abbrev pub head_running : String → StaticNode
head_running image =
    node_of "h" (spec_of "10.0.0.1" head (head_components image))
      (some (status_of (component_seen "ray-head" image running true ∷ [])))

abbrev pub worker_running : String → StaticNode
worker_running image =
    node_of "w" (spec_of "10.0.0.2" worker (worker_components image))
      (some (status_of (component_seen "ray-worker" image running true ∷ [])))

abbrev pub worker_stopped : StaticNode
worker_stopped =
    node_of "w" (spec_of "10.0.0.2" worker [])
      (some (status_of (component_seen "ray-worker" "" stopped false ∷ [])))

abbrev pub plan_of : String → StaticNodeSpec → DesiredNodePlan
plan_of name spec = record {
  node = some (node_of name spec none);
  accelerator = none;
  target_components = spec.components;
}

-- The plans for an image, before an upgrade stages them.
abbrev pub plans_for : String → List DesiredNodePlan
plans_for image =
    plan_of "h" (spec_of "10.0.0.1" head (head_components image))
    ∷ plan_of "w" (spec_of "10.0.0.2" worker (worker_components image))
    ∷ []

abbrev pub by_name : StaticNode → StaticNode → List (String × StaticNode)
by_name head_node worker_node = ("h", head_node) ∷ ("w", worker_node) ∷ []

abbrev pub observed : StaticNode → StaticNode → List (Option StaticNode)
observed head_node worker_node = some head_node ∷ some worker_node ∷ []

-- Every command succeeds; each says what an inspection of a running container would say.
abbrev pub log_host : Host (List String)
log_host = record {
  run = λ log text. (text ∷ log, ok "ray:v2 true");
  write_file_if_changed = λ log file. (file.path ∷ log, ok false);
  remove_file = λ log file. (file.path ∷ log, ok tt);
  http_get = λ log url timeout. (url ∷ log, ok (200, "200 OK"));
}

abbrev pub image_hash : NodeComponentSpec → String
image_hash component = component.image
