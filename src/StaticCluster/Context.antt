-- ===== src/StaticCluster/Context.antt =====
-- status.go: what the status of a cluster is computed from, gathered node by node.
use mathlib.Core.Bool.{decide}
use Prim.Native.String.{◌++◌ as concat}
use neutree.Prelude.{
  ℕ, suc, String, Bool, true, false, not, ◌&&◌, ◌||◌, Option, none, some, List, [], ◌∷◌, ◌++◌, ◌==◌,
  contains, follow, is_blank, length, nat_eq, sort_texts, if◌then◌else◌,
}
use neutree.Prelude.Dict.{lookup, insert}
use neutree.Api.Component.{NodeComponentSpec, NodeComponentStatus, WarmStatus}
use neutree.Api.StaticNode.{
  StaticNode, StaticNodeSpec, StaticNodeStatus, StaticNodePhase, StaticNodeSpec-discrete,
  spec_content,
}
use neutree.Api.StaticNodeCluster.{StaticNodeCluster}
use neutree.StaticCluster.Names.{
  static_node_by_name, static_node_cluster_desired_node_names, static_node_cluster_head_name,
}
use neutree.StaticCluster.Plan.{DesiredNodePlan}
use neutree.StaticCluster.Observed.{is_running}
use neutree.StaticCluster.Upgrade.{UpgradeState, static_node_cluster_upgrade}
use neutree.StaticCluster.StatusText.{
  desired_component_status_message, static_node_status_message,
  static_node_cluster_stale_node_message,
}

pub record StatusContext : Type 0 where
  pub desired_nodes : ℕ
  pub ready_nodes : ℕ
  pub head_ready : Bool
  pub warm_ready : Bool
  pub any_node_failed : Bool
  pub has_missing : Bool
  pub has_stale : Bool
  pub has_spec_drift : Bool
  pub has_status_drift : Bool
  pub upgrade : Option UpgradeState
  pub stale_messages : List String
  pub blocking_messages : List String

-- The phases that the code compares with.
abbrev pub is_ready_node : StaticNodePhase → Bool
is_ready_node StaticNodePhase.ready = true
is_ready_node _ = false

abbrev pub is_failed_node : StaticNodePhase → Bool
is_failed_node StaticNodePhase.failed = true
is_failed_node _ = false

-- `reflect.DeepEqual` of the specs behind two pointers.
unfoldable pub same_spec : Option StaticNodeSpec → Option StaticNodeSpec → Bool
unfolding decide spec_content
same_spec none none = true
same_spec none (some t) = false
same_spec (some s) none = false
same_spec (some s) (some t) = decide (StaticNodeSpec-discrete (spec_content s) (spec_content t))

unfoldable pub static_node_spec_drifted : Option StaticNode → StaticNode → Bool
unfolding same_spec
static_node_spec_drifted none current = false
static_node_spec_drifted (some desired) current = not (same_spec current.spec desired.spec)

unfoldable pub desired_component_observed : NodeComponentSpec → List NodeComponentStatus → Bool
desired_component_observed component [] = false
desired_component_observed component (status ∷ statuses) =
    if not (status.name == component.name)
    then desired_component_observed component statuses
    else if not status.ready || not (is_running status.phase)
    then false
    else if not (is_blank component.config_hash)
        && not (status.observed_hash == component.config_hash)
    then false
    else if not (is_blank component.image) && not (status.observed_image == component.image)
    then false
    else true

-- `ctx.BlockingMessages = append(ctx.BlockingMessages, message)`
abbrev pub block : String → StatusContext → StatusContext
block message ctx = record ctx { blocking_messages = ctx.blocking_messages ++ message ∷ [] }

-- The loop of `aggregateDesiredStaticNodeComponentStatus`.
unfoldable pub aggregate_components :
    String → List NodeComponentStatus → List NodeComponentSpec → StatusContext → StatusContext
unfolding desired_component_observed
aggregate_components node_name statuses [] ctx = ctx
aggregate_components node_name statuses (component ∷ components) ctx =
    aggregate_components node_name statuses components (
      if desired_component_observed component statuses
      then ctx
      else block (desired_component_status_message node_name component statuses)
          (record ctx { has_status_drift = true }))

-- The components of the plan's spec, none where the plan has no node or no spec.
abbrev pub planned_components : Option StaticNodeSpec → List NodeComponentSpec
planned_components none = []
planned_components (some spec) = spec.components

unfoldable pub aggregate_desired_static_node_component_status :
    String → Option StaticNodeSpec → List NodeComponentStatus → StatusContext → StatusContext
unfolding aggregate_components
aggregate_desired_static_node_component_status node_name planned statuses ctx =
    aggregate_components node_name statuses (planned_components planned) ctx

abbrev pub warm_is_ready : Option WarmStatus → Bool
warm_is_ready none = false
warm_is_ready (some warm) = warm.ready

-- What `aggregateDesiredStaticNodeStatus` takes from the node's status before its components.
unfoldable pub count_node_status : String → Bool → StaticNodeStatus → StatusContext → StatusContext
unfolding static_node_status_message
count_node_status node_name head status ctx =
    let counted = record ctx {
      ready_nodes = if is_ready_node status.phase then suc ctx.ready_nodes else ctx.ready_nodes;
      head_ready = if head then is_ready_node status.phase else ctx.head_ready;
      any_node_failed = is_failed_node status.phase || ctx.any_node_failed;
      warm_ready = warm_is_ready status.warm && ctx.warm_ready;
    } in
    let message = static_node_status_message node_name status in
    if is_blank message then counted else block message counted

-- The part of `aggregateDesiredStaticNodeStatus` that reads the node's status.
unfoldable pub aggregate_node_status :
    String → Bool → Option StaticNodeStatus → Option StaticNodeSpec → StatusContext → StatusContext
unfolding aggregate_desired_static_node_component_status count_node_status
aggregate_node_status node_name head none planned ctx =
    block (concat "static node " (concat node_name " status is empty"))
      (record ctx { has_status_drift = true; warm_ready = false })
aggregate_node_status node_name head (some status) planned ctx =
    aggregate_desired_static_node_component_status node_name planned status.components
      (count_node_status node_name head status ctx)

unfoldable pub aggregate_desired_static_node_status :
    String → Bool → Option StaticNode → Option DesiredNodePlan → StatusContext → StatusContext
unfolding static_node_spec_drifted aggregate_node_status
aggregate_desired_static_node_status node_name head none plan ctx =
    block (concat "static node " (concat node_name " is missing"))
      (record ctx { has_missing = true; warm_ready = false })
aggregate_desired_static_node_status node_name head (some current) plan ctx =
    let planned = follow plan (λ p. p.node) in
    aggregate_node_status node_name head current.status (follow planned (λ n. n.spec)) (
      if static_node_spec_drifted planned current
      then block (concat "static node " (concat node_name " spec is not observed"))
          (record ctx { has_spec_drift = true })
      else ctx)

-- The loop over the observed nodes: those that are not desired are stale.
unfoldable pub mark_stale : List String → StaticNode → StatusContext → StatusContext
unfolding static_node_cluster_stale_node_message
mark_stale desired node ctx = if contains desired node.metadata.name then ctx else record ctx {
  has_stale = true;
  stale_messages = ctx.stale_messages ++ static_node_cluster_stale_node_message node ∷ [];
}

unfoldable pub aggregate_stale :
    List String → List (Option StaticNode) → StatusContext → StatusContext
unfolding mark_stale
aggregate_stale desired [] ctx = ctx
aggregate_stale desired (none ∷ nodes) ctx = aggregate_stale desired nodes ctx
aggregate_stale desired (some node ∷ nodes) ctx =
    aggregate_stale desired nodes (mark_stale desired node ctx)

-- `staticNodeClusterPlanByName`
unfoldable pub plan_by_name_from :
    List (String × DesiredNodePlan) → List DesiredNodePlan → List (String × DesiredNodePlan)
plan_by_name_from result [] = result
plan_by_name_from result (plan ∷ plans) =
    plan_by_name_from
      (elim plan.node [ none ↦ result | some node ↦ insert node.metadata.name plan result ]) plans

unfoldable pub static_node_cluster_plan_by_name :
    List DesiredNodePlan → List (String × DesiredNodePlan)
unfolding plan_by_name_from insert
static_node_cluster_plan_by_name plans = plan_by_name_from [] plans

-- The loop over the desired names.
unfoldable pub aggregate_desired :
    String
    → List (String × StaticNode)
    → List (String × DesiredNodePlan)
    → List String
    → StatusContext
    → StatusContext
unfolding aggregate_desired_static_node_status lookup
aggregate_desired head_name current_by_name plans_by_name [] ctx = ctx
aggregate_desired head_name current_by_name plans_by_name (name ∷ names) ctx =
    aggregate_desired head_name current_by_name plans_by_name names (
      aggregate_desired_static_node_status name (name == head_name) (lookup name current_by_name)
        (lookup name plans_by_name) ctx)

-- `staticNodeClusterDesiredNodeNameList`: the desired names in the order of `sort.Strings`.
unfoldable pub static_node_cluster_desired_node_name_list : Option StaticNodeCluster → List String
unfolding sort_texts
static_node_cluster_desired_node_name_list cluster =
    sort_texts (static_node_cluster_desired_node_names cluster)

unfoldable pub initial_status_context :
    Option StaticNodeCluster → List (Option StaticNode) → List DesiredNodePlan → StatusContext
initial_status_context cluster nodes plans = record {
  desired_nodes = length (static_node_cluster_desired_node_names cluster);
  ready_nodes = 0;
  head_ready = false;
  warm_ready = true;
  any_node_failed = false;
  has_missing = false;
  has_stale = false;
  has_spec_drift = false;
  has_status_drift = false;
  upgrade = static_node_cluster_upgrade cluster nodes plans;
  stale_messages = [];
  blocking_messages = [];
}

unfoldable pub build_static_node_cluster_status_context :
    Option StaticNodeCluster → List (Option StaticNode) → List DesiredNodePlan → StatusContext
unfolding initial_status_context aggregate_stale aggregate_desired
build_static_node_cluster_status_context cluster nodes plans =
    let ctx = initial_status_context cluster nodes plans in
    if nat_eq ctx.desired_nodes 0
    then block "static node cluster has no desired nodes" (record ctx { any_node_failed = true })
    else aggregate_desired (static_node_cluster_head_name cluster) (static_node_by_name nodes)
        (static_node_cluster_plan_by_name plans)
        (static_node_cluster_desired_node_name_list cluster)
        (aggregate_stale (static_node_cluster_desired_node_names cluster) nodes ctx)
