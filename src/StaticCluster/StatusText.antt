-- ===== src/StaticCluster/StatusText.antt =====
-- The messages of status.go.
use Prim.Native.String.{String, ◌++◌ as concat}
use neutree.Prelude.{
  Bool, not, ◌&&◌, Option, none, some, List, [], ◌∷◌, ◌++◌, ◌==◌, is_blank, if◌then◌else◌,
}
use neutree.Api.Component.{NodeComponentSpec, NodeComponentStatus, NodeComponentPhase, WarmStatus}
use neutree.Api.StaticNode.{StaticNode, StaticNodeStatus, StaticNodePhase}
use neutree.StaticCluster.Upgrade.{
  UpgradeStep, warming, stopping_workers, starting_head, starting_workers, verifying,
}
use neutree.Strings.{join}

abbrev pub step_text : UpgradeStep → String
step_text warming = "Warming"
step_text stopping_workers = "StoppingWorkers"
step_text starting_head = "StartingHead"
step_text starting_workers = "StartingWorkers"
step_text verifying = "Verifying"

abbrev pub node_phase_text : StaticNodePhase → String
node_phase_text StaticNodePhase.unset = ""
node_phase_text StaticNodePhase.pending = "Pending"
node_phase_text StaticNodePhase.warming = "Warming"
node_phase_text StaticNodePhase.reconciling = "Reconciling"
node_phase_text StaticNodePhase.ready = "Ready"
node_phase_text StaticNodePhase.failed = "Failed"

abbrev pub component_phase_text : NodeComponentPhase → String
component_phase_text NodeComponentPhase.unset = ""
component_phase_text NodeComponentPhase.pending = "Pending"
component_phase_text NodeComponentPhase.starting = "Starting"
component_phase_text NodeComponentPhase.running = "Running"
component_phase_text NodeComponentPhase.failed = "Failed"
component_phase_text NodeComponentPhase.stopped = "Stopped"

unfoldable pub node_component_status_by_name :
    List NodeComponentStatus → String → Option NodeComponentStatus
node_component_status_by_name [] name = none
node_component_status_by_name (status ∷ statuses) name =
    if status.name == name then some status else node_component_status_by_name statuses name

-- One detail, where its text is not empty.
abbrev detail : String → String → List String
detail label text = if is_blank text then [] else concat label text ∷ []

unfoldable pub desired_component_status_message :
    String → NodeComponentSpec → List NodeComponentStatus → String
unfolding node_component_status_by_name join
desired_component_status_message node_name component statuses =
    let message = concat "static node " (
      concat node_name
        (concat " component " (concat component.name " is not running desired config"))) in
    elim (node_component_status_by_name statuses component.name) [
      | none ↦ message
      | some status ↦
          let details =
            detail "phase=" (component_phase_text status.phase)
            ++ (detail "reason=" status.reason ++ detail "message=" status.message) in
          elim details [
            | [] ↦ message
            | first ∷ others ↦ concat message (concat ": " (join " " (first ∷ others)))
          ]
    ]

unfoldable pub static_node_warm_status_message : String → Option WarmStatus → String
static_node_warm_status_message node_name warm =
    let message = concat "static node " (concat node_name " warm not ready") in
    elim warm [
      | none ↦ message
      | some status ↦
          if not (is_blank status.message)
          then concat message (concat ": " status.message)
          else if not (is_blank status.reason)
          then concat message (concat ": " status.reason)
          else message
    ]

abbrev is_ready : StaticNodePhase → Bool
is_ready phase = node_phase_text phase == "Ready"

unfoldable pub static_node_status_message : String → StaticNodeStatus → String
unfolding static_node_warm_status_message
static_node_status_message node_name status =
    let phase =
      concat "static node " (concat node_name (concat " phase=" (node_phase_text status.phase))) in
    if is_blank node_name
    then ""
    else if not (is_ready status.phase) && not (is_blank status.error_message)
    then concat phase (concat ":\n" status.error_message)
    else if not (is_ready status.phase)
    then phase
    else elim status.warm [
      | none ↦ static_node_warm_status_message node_name none
      | some warm ↦ if warm.ready then "" else static_node_warm_status_message node_name (some warm)
    ]

-- `staticNodeClusterStaleNodeMessage`
unfoldable pub static_node_cluster_stale_node_message : StaticNode → String
static_node_cluster_stale_node_message node =
    if not (is_blank node.metadata.deletion_timestamp)
    then concat "stale static node " (concat node.metadata.name " is deleting")
    else concat "stale static node " (concat node.metadata.name " exists")
