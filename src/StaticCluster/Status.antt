-- ===== src/StaticCluster/Status.antt =====
-- status.go: the status of a cluster, put together from the observed nodes and the plans.
pub mod NodeFacts
pub mod FoldFacts
pub mod Ready
pub mod Rounds
pub mod Alive
use mathlib.Core.Bool.{decide}
use Prim.Native.String.{◌++◌ as concat}
use neutree.Prelude.{
  ℕ, suc, ◌+◌, String, Bool, true, false, not, ◌&&◌, ◌||◌, Option, none, some, List, [], ◌∷◌, ◌++◌,
  ◌==◌, contains, follow, is_blank, is_nil, is_empty, length, nat_eq, sort_texts, if◌then◌else◌,
}
use neutree.Prelude.Dict.{lookup, insert}
use neutree.Api.Component.{NodeComponentSpec, NodeComponentStatus, NodeComponentPhase, WarmStatus}
use neutree.Api.StaticNode.{
  StaticNode, StaticNodeSpec, StaticNodeStatus, StaticNodePhase, StaticNodeSpec-discrete,
}
use neutree.Api.StaticNodeCluster.{
  StaticNodeCluster, StaticNodeClusterStatus, StaticNodeClusterPhase, StaticNodeClusterNodeSpec,
}
use neutree.StaticCluster.Names.{
  cluster_spec, cluster_nodes, static_node_by_name, static_node_cluster_desired_node_names,
  static_node_cluster_head_name,
}
use neutree.StaticCluster.Plan.{DesiredNodePlan, plan_spec}
use neutree.StaticCluster.Observed.{is_running}
use neutree.StaticCluster.Upgrade.{UpgradeState, static_node_cluster_upgrade}
use neutree.Strings.{join}
use neutree.StaticCluster.Messages.{join_status_messages}
use neutree.StaticCluster.StatusText.{
  step_text, desired_component_status_message, static_node_status_message,
  static_node_cluster_stale_node_message,
}
use neutree.StaticCluster.Context.{StatusContext, build_static_node_cluster_status_context}

abbrev pub is_ready_cluster : StaticNodeClusterPhase → Bool
is_ready_cluster StaticNodeClusterPhase.ready = true
is_ready_cluster _ = false

unfoldable pub static_node_cluster_status_converged : StatusContext → Bool
static_node_cluster_status_converged ctx =
    not ctx.has_missing
    && not ctx.has_stale
    && not ctx.has_spec_drift
    && not ctx.has_status_drift
    && nat_eq ctx.ready_nodes ctx.desired_nodes
    && ctx.head_ready
    && ctx.warm_ready

unfoldable pub static_node_cluster_upgrade_ready : StatusContext → Bool
unfolding static_node_cluster_status_converged
static_node_cluster_upgrade_ready ctx = elim ctx.upgrade [
  | none ↦ false
  | some upgrade ↦ upgrade.target_runtime_observed && static_node_cluster_status_converged ctx
]

unfoldable pub determine_static_node_cluster_phase : StatusContext → StaticNodeClusterPhase
unfolding static_node_cluster_upgrade_ready
determine_static_node_cluster_phase ctx =
    if nat_eq ctx.desired_nodes 0 || ctx.any_node_failed
    then StaticNodeClusterPhase.failed
    else if not (is_nil ctx.upgrade)
    then (if static_node_cluster_upgrade_ready ctx
        then StaticNodeClusterPhase.ready
        else StaticNodeClusterPhase.upgrading)
    else if static_node_cluster_status_converged ctx
    then StaticNodeClusterPhase.ready
    else StaticNodeClusterPhase.provisioning

unfoldable pub static_node_cluster_error_message : StatusContext → StaticNodeClusterPhase → String
unfolding join_status_messages
static_node_cluster_error_message ctx phase =
    if is_ready_cluster phase
    then ""
    else join_status_messages "" (
        elim ctx.upgrade [ none ↦ [] | some upgrade ↦ step_text upgrade.step ∷ [] ]
        ++ (ctx.stale_messages ++ ctx.blocking_messages))

unfoldable pub aggregate_from : Option StaticNodeCluster → StatusContext → StaticNodeClusterStatus
unfolding determine_static_node_cluster_phase static_node_cluster_error_message
aggregate_from cluster ctx =
    let phase = determine_static_node_cluster_phase ctx in
    let status : StaticNodeClusterStatus = record {
      phase = phase;
      desired_nodes = ctx.desired_nodes;
      ready_nodes = ctx.ready_nodes;
      head_ready = ctx.head_ready;
      warm_ready = ctx.warm_ready;
      version = elim ctx.upgrade [ none ↦ "" | some upgrade ↦ upgrade.observed_version ];
      last_transition_time = "";
      error_message = static_node_cluster_error_message ctx phase;
    } in
    elim (cluster_spec cluster) [
      | none ↦ status
      | some spec ↦
          if is_ready_cluster phase
          then record status { version = spec.version; error_message = "" }
          else status
    ]

-- `StatusAggregator.Aggregate`
unfoldable pub aggregate :
    Option StaticNodeCluster
    → List (Option StaticNode)
    → List DesiredNodePlan
    → StaticNodeClusterStatus
unfolding aggregate_from build_static_node_cluster_status_context
aggregate cluster nodes plans =
    aggregate_from cluster (build_static_node_cluster_status_context cluster nodes plans)

-- The Ray nodes that the head's dashboard lists, or the error of asking it.
pub record RayNode : Type 0 where
  pub ip : String
  pub alive : Bool

pub data Listing : Type 0 where
  listed : List RayNode → Listing
  unreachable : String → Listing

abbrev pub alive_ips : List RayNode → List String
alive_ips [] = []
alive_ips (node ∷ nodes) = if node.alive then node.ip ∷ alive_ips nodes else alive_ips nodes

unfoldable pub missing_ips : List StaticNodeClusterNodeSpec → List String → List String
missing_ips [] alive_by_ip = []
missing_ips (node ∷ nodes) alive_by_ip =
    if is_blank node.ip || contains alive_by_ip node.ip
    then missing_ips nodes alive_by_ip
    else node.ip ∷ missing_ips nodes alive_by_ip

unfoldable pub missing_desired_ray_node_ips : Option StaticNodeCluster → List String → List String
unfolding missing_ips sort_texts cluster_nodes
missing_desired_ray_node_ips cluster alive_by_ip =
    sort_texts (missing_ips (cluster_nodes cluster) alive_by_ip)

-- `verifyRayCluster`: the text of its error, or none.
unfoldable pub verify_ray_cluster : Option StaticNodeCluster → Listing → Option String
unfolding missing_desired_ray_node_ips join
verify_ray_cluster cluster (unreachable error) = some (concat "failed to list ray nodes: " error)
verify_ray_cluster cluster (listed nodes) =
    elim (missing_desired_ray_node_ips cluster (alive_ips nodes)) [
      | [] ↦ none
      | first ∷ others ↦
          some (concat "ray nodes are not alive: [" (concat (join " " (first ∷ others)) "]"))
    ]

abbrev pub was_ready : Option StaticNodeCluster → Bool
was_ready cluster = elim (follow cluster (λ c. c.status)) [
  | none ↦ false
  | some status ↦ is_ready_cluster status.phase
]

-- `StatusAggregator.RequireRayClusterReady`
unfoldable pub require_ray_cluster_ready :
    Option StaticNodeCluster → Listing → StaticNodeClusterStatus → StaticNodeClusterStatus
unfolding verify_ray_cluster join_status_messages
require_ray_cluster_ready cluster listing status =
    if not (is_ready_cluster status.phase)
    then status
    else elim (verify_ray_cluster cluster listing) [
      | none ↦ status
      | some error ↦ record status {
        error_message =
            join_status_messages status.error_message
              (concat "ray cluster verification failed: " error ∷ []);
        phase =
            if was_ready cluster
            then StaticNodeClusterPhase.failed
            else StaticNodeClusterPhase.provisioning;
      }
    ]
