-- ===== src/Controllers/Cluster.antt =====
-- static_node_cluster_controller.go: one round over a cluster.
use Prim.Native.String.{◌++◌ as concat}
use neutree.Prelude.{
  ℕ, String, Bool, false, not, ◌&&◌, Option, none, some, List, [], ◌∷◌, contains, is_blank,
  is_empty, length, if◌then◌else◌,
}
use neutree.Prelude.Result.{Result, ok, err}
use neutree.Api.Meta.{Metadata, is_force_delete, with_force_delete_annotation}
use neutree.Api.StaticNode.{StaticNode}
use neutree.Api.StaticNodeCluster.{
  StaticNodeCluster, StaticNodeClusterStatus, StaticNodeClusterPhase,
}
use neutree.StaticCluster.Plan.{DesiredNodePlan}
use neutree.StaticCluster.NodePlan.{Planner}
use neutree.StaticCluster.Planner.{plan}
use neutree.StaticCluster.Status.{Listing, aggregate, require_ray_cluster_ready}
use neutree.Store.{Store, Action, return, lift, ◌>>=◌, ◌>>◌}
use neutree.Controllers.Helpers.{
  wrap, list_by_cluster, upsert_static_node, soft_delete_static_node,
  hard_delete_static_node_cluster, update_static_node_cluster_status,
}

-- `v1.StaticNodeClusterStatus{}`
abbrev pub blank_status : StaticNodeClusterStatus
blank_status = record {
  phase = StaticNodeClusterPhase.unset;
  desired_nodes = 0;
  ready_nodes = 0;
  head_ready = false;
  warm_ready = false;
  version = "";
  last_transition_time = "";
  error_message = "";
}

-- `staticNodeClusterFailedStatus`, for an error that is there.
unfoldable pub static_node_cluster_failed_status :
    StaticNodeClusterStatus → String → StaticNodeClusterStatus
static_node_cluster_failed_status status error = record status {
  phase = StaticNodeClusterPhase.failed;
  error_message =
      if is_blank status.error_message
      then error
      else concat status.error_message (concat "\n" error);
}

unfoldable pub static_node_cluster_deleting_status : ℕ → Option String → StaticNodeClusterStatus
unfolding static_node_cluster_failed_status
static_node_cluster_deleting_status desired_nodes error =
    let status : StaticNodeClusterStatus = record blank_status {
      phase = StaticNodeClusterPhase.provisioning;
      desired_nodes = desired_nodes;
      error_message = "Deleting";
    } in
    elim error [ none ↦ status | some e ↦ static_node_cluster_failed_status status e ]

-- The planned node with its id, once it is stored.
abbrev pub stored : DesiredNodePlan → StaticNode → DesiredNodePlan
stored p node = record p { node = some node }

-- `node.Metadata.Annotations = v1.WithForceDeleteAnnotation(node.Metadata.Annotations)`
abbrev annotated : Metadata → Metadata
annotated metadata = record metadata {
  annotations = with_force_delete_annotation metadata.annotations;
}

abbrev pub force_annotated : StaticNode → StaticNode
force_annotated node = record node { metadata = annotated node.metadata }

-- What `updateStatus` makes of the error of the round and of its own.
abbrev pub reported :
    {S : Type 0} → String → Option String → S × Result (Unit {0}) → S × Result (Unit {0})
reported message (some error) (s, outcome) = (s, err error)
reported message none (s, ok u) = (s, ok tt)
reported message none (s, err error) = (s, err (concat message (concat ": " error)))

-- The names of the plans that have a node: the keys of `desiredByName`.
abbrev pub desired_names : List DesiredNodePlan → List String
desired_names [] = []
desired_names (p ∷ plans) = elim p.node [
  | none ↦ desired_names plans
  | some node ↦ node.metadata.name ∷ desired_names plans
]

abbrev pub upsert_message : String → String
upsert_message name = concat "failed to upsert static node " name

abbrev pub stale_message : String → String
stale_message name = concat "failed to delete stale static node " name

abbrev pub force_message : String → String
force_message name = concat "failed to mark static node " (concat name " force deleting")

abbrev pub delete_message : String → String
delete_message name = concat "failed to delete static node " name

module _ {S : Type 0} (store : Store S) where
  unfoldable pub update_status :
      StaticNodeCluster → StaticNodeClusterStatus → String → Option String → Action S (Unit {0})
  unfolding update_static_node_cluster_status
  update_status cluster status message reconcile_err s =
      reported message reconcile_err (update_static_node_cluster_status store cluster status s)

  -- The loop over the plans.
  unfoldable pub upsert_plans : List DesiredNodePlan → Action S (List DesiredNodePlan)
  unfolding upsert_static_node
  upsert_plans [] = return []
  upsert_plans (p ∷ plans) = elim p.node [
    | none ↦ do rest ← upsert_plans plans; return (p ∷ rest)
    | some desired ↦ do
      node ← wrap (upsert_message desired.metadata.name) (upsert_static_node store desired)
      rest ← upsert_plans plans
      return (stored p node ∷ rest)
  ]

  -- The deferred part of `reconcileNormal`: an error finds the status still empty.
  unfoldable pub report_normal :
      StaticNodeCluster → S × Result StaticNodeClusterStatus → S × Result (Unit {0})
  unfolding update_status static_node_cluster_failed_status
  report_normal cluster (s, ok status) =
      update_status cluster status "failed to update static node cluster status" none s
  report_normal cluster (s, err error) =
      update_status cluster (static_node_cluster_failed_status blank_status error)
        "failed to update static node cluster status" (some error) s

  -- The deferred part of `reconcileDelete`, the cluster being still there.
  unfoldable pub report_delete :
      StaticNodeCluster → ℕ → S × Result (Unit {0}) → S × Result (Unit {0})
  unfolding update_status static_node_cluster_deleting_status
  report_delete cluster count (s, ok u) =
      update_status cluster (static_node_cluster_deleting_status count none)
        "failed to update static node cluster deletion status" none s
  report_delete cluster count (s, err error) =
      update_status cluster (static_node_cluster_deleting_status count (some error))
        "failed to update static node cluster deletion status" (some error) s

  -- The same after the attempt to remove the cluster.
  unfoldable pub report_removal : StaticNodeCluster → S × Result (Unit {0}) → S × Result (Unit {0})
  unfolding report_delete
  report_removal cluster (s, ok u) = (s, ok tt)
  report_removal cluster (s, err error) = report_delete cluster 0 (s, err error)

-- `listing` is what the Ray dashboard answers, `clock` the time at each state.
module _ {S : Type 0} (store : Store S) (clock : S → String) where
  -- One node of the loop over the current nodes.
  unfoldable pub delete_if_stale : List String → Option StaticNode → Action S (Unit {0})
  unfolding soft_delete_static_node
  delete_if_stale desired none = return tt
  delete_if_stale desired (some node) =
      if contains desired node.metadata.name
      then return tt
      else wrap (stale_message node.metadata.name) (soft_delete_static_node store clock node)

  unfoldable pub delete_stale : List String → List (Option StaticNode) → Action S (Unit {0})
  unfolding delete_if_stale
  delete_stale desired [] = return tt
  delete_stale desired (current ∷ nodes) =
      delete_if_stale desired current >> delete_stale desired nodes

  -- The body of `reconcileNormal`: the status that it comes to.
  unfoldable pub apply_cluster :
      Planner
      → Listing
      → StaticNodeCluster
      → List (Option StaticNode)
      → Action S StaticNodeClusterStatus
  unfolding plan upsert_plans delete_stale list_by_cluster aggregate require_ray_cluster_ready
  apply_cluster planner listing cluster current_nodes = do
    desired_node_plans ← lift (plan planner (some cluster) current_nodes)
    written ← upsert_plans store desired_node_plans
    _ ← delete_stale (desired_names desired_node_plans) current_nodes
    latest_nodes ←
        wrap "failed to list latest static nodes"
          (list_by_cluster store cluster.metadata.workspace cluster.metadata.name)
    return (
        require_ray_cluster_ready (some cluster) listing
          (aggregate (some cluster) latest_nodes written))

  unfoldable pub reconcile_normal :
      Planner → Listing → StaticNodeCluster → List (Option StaticNode) → Action S (Unit {0})
  unfolding apply_cluster report_normal
  reconcile_normal planner listing cluster current_nodes s =
      report_normal store cluster (apply_cluster planner listing cluster current_nodes s)

  -- One node of the loop of `reconcileDelete`.
  unfoldable pub delete_node : Bool → Option StaticNode → Action S (Unit {0})
  unfolding is_force_delete soft_delete_static_node with_force_delete_annotation
  delete_node is_force none = return tt
  delete_node is_force (some node) =
      if is_force && not (is_force_delete node.metadata.annotations)
      then wrap (force_message node.metadata.name)
          (soft_delete_static_node store clock (force_annotated node))
      else if not (is_blank node.metadata.deletion_timestamp)
      then return tt
      else wrap (delete_message node.metadata.name) (soft_delete_static_node store clock node)

  unfoldable pub delete_nodes : Bool → List (Option StaticNode) → Action S (Unit {0})
  unfolding delete_node
  delete_nodes is_force [] = return tt
  delete_nodes is_force (current ∷ nodes) =
      delete_node is_force current >> delete_nodes is_force nodes

  unfoldable pub reconcile_delete :
      StaticNodeCluster → List (Option StaticNode) → Action S (Unit {0})
  unfolding hard_delete_static_node_cluster is_force_delete delete_nodes report_delete
      report_removal
  reconcile_delete cluster current_nodes s =
      if is_empty current_nodes
      then report_removal store cluster (hard_delete_static_node_cluster store cluster s)
      else report_delete store cluster (length current_nodes)
          (delete_nodes (is_force_delete cluster.metadata.annotations) current_nodes s)

  unfoldable pub dispatch :
      Planner → Listing → StaticNodeCluster → List (Option StaticNode) → Action S (Unit {0})
  unfolding reconcile_delete reconcile_normal
  dispatch planner listing cluster current_nodes =
      if not (is_blank cluster.metadata.deletion_timestamp)
      then reconcile_delete cluster current_nodes
      else reconcile_normal planner listing cluster current_nodes

  -- `sync` for a cluster that is there.
  unfoldable pub sync : Planner → Listing → StaticNodeCluster → Action S (Unit {0})
  unfolding list_by_cluster dispatch
  sync planner listing cluster = do
    current_nodes ←
        wrap "failed to list static nodes"
          (list_by_cluster store cluster.metadata.workspace cluster.metadata.name)
    dispatch planner listing cluster current_nodes
