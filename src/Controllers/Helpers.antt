-- ===== src/Controllers/Helpers.antt =====
-- static_node_helpers.go: reading and writing nodes and clusters.
use mathlib.Core.Bool.{decide}
use Prim.Native.String.{◌++◌ as concat}
use neutree.Prelude.{
  String, Bool, false, ◌&&◌, ◌||◌, Option, none, some, List, [], ◌∷◌, ◌==◌, is_blank, if◌then◌else◌,
}
use neutree.Prelude.Result.{Result, ok, err}
use neutree.Api.Meta.{Metadata}
use neutree.Api.StaticNode.{StaticNode, StaticNodeStatus, StaticNodeStatus-discrete}
use neutree.Api.StaticNodeCluster.{StaticNodeCluster, StaticNodeClusterStatus}
use neutree.StaticNode.Head.{keep_by_cluster}
use neutree.Store.{Store, NodePatch, Action, return, fail, ◌>>=◌, ◌>>◌, cluster_filters}

unfoldable pub prepare_static_node : StaticNode → StaticNode
prepare_static_node node = record node {
  api_version = if is_blank node.api_version then "v1" else node.api_version;
  kind = if is_blank node.kind then "StaticNode" else node.kind;
}

unfoldable pub static_node_desired_update : StaticNode → NodePatch
static_node_desired_update node = record {
  id = node.id;
  api_version = node.api_version;
  kind = node.kind;
  metadata = some node.metadata;
  spec = node.spec;
  status = none;
}

unfoldable pub static_node_metadata_update : StaticNode → NodePatch
static_node_metadata_update node = record {
  id = node.id;
  api_version = node.api_version;
  kind = node.kind;
  metadata = some node.metadata;
  spec = none;
  status = none;
}

-- `&v1.StaticNode{Status: &status}`
unfoldable pub static_node_status_update : StaticNodeStatus → NodePatch
static_node_status_update status = record {
  id = 0;
  api_version = "";
  kind = "";
  metadata = none;
  spec = none;
  status = some status;
}

-- The error of `validateStaticNodeOwner`, where there is one.
unfoldable pub validate_static_node_owner : StaticNode → StaticNode → Option String
validate_static_node_owner existing desired = elim existing.spec [
  | none ↦ none
  | some old ↦ elim desired.spec [
    | none ↦ none
    | some new ↦
        if is_blank old.cluster || is_blank new.cluster || old.cluster == new.cluster
        then none
        else some (
            concat "static node " (
              concat desired.metadata.name
                (concat " is already owned by static node cluster " old.cluster)))
  ]
]

-- The loop of `findStaticNode`.
unfoldable pub find_in : String → String → List StaticNode → Option StaticNode
find_in workspace name [] = none
find_in workspace name (node ∷ nodes) =
    if node.metadata.workspace == workspace && node.metadata.name == name
    then some node
    else find_in workspace name nodes

abbrev pub wrapped : {S A : Type 0} → String → S × Result A → S × Result A
wrapped message (s, ok a) = (s, ok a)
wrapped message (s, err error) = (s, err (concat message (concat ": " error)))

-- `node.Metadata.DeletionTimestamp = now`
abbrev pub stamp : String → Metadata → Metadata
stamp now metadata = record metadata { deletion_timestamp = now }

-- `errors.Wrap`
abbrev pub wrap : {S A : Type 0} → String → Action S A → Action S A
wrap message m s = wrapped message (m s)

-- `node.Status != nil && reflect.DeepEqual(*node.Status, status)`
abbrev pub same_status : Option StaticNodeStatus → StaticNodeStatus → Bool
same_status none status = false
same_status (some old) status = decide (StaticNodeStatus-discrete old status)

module _ {S : Type 0} (store : Store S) where
  unfoldable pub find_static_node : String → String → Action S (Option StaticNode)
  unfolding find_in
  find_static_node workspace name = do
    nodes ← store.list_static_node (
        record { column = "metadata->>workspace"; value = workspace }
        ∷ record { column = "metadata->>name"; value = name }
        ∷ [])
    return (find_in workspace name nodes)

  -- `staticnode.ListByCluster`
  unfoldable pub list_by_cluster : String → String → Action S (List (Option StaticNode))
  unfolding keep_by_cluster
  list_by_cluster workspace cluster_name = do
    items ← store.list_static_node (cluster_filters workspace cluster_name)
    return (keep_by_cluster workspace cluster_name items)

  -- What `upsertStaticNode` does once the row of that name is known; the node with its new id.
  unfoldable pub write_over : StaticNode → Option StaticNode → Action S StaticNode
  unfolding validate_static_node_owner static_node_desired_update
  write_over node none = store.create_static_node node >> return node
  write_over node (some existing) = elim (validate_static_node_owner existing node) [
    | some error ↦ fail error
    | none ↦
        let owned = record node { id = existing.id } in
        store.update_static_node existing.id (static_node_desired_update owned) >> return owned
  ]

  unfoldable pub upsert_static_node : StaticNode → Action S StaticNode
  unfolding prepare_static_node find_static_node write_over
  upsert_static_node desired = do
    let node = prepare_static_node desired
    existing ← find_static_node node.metadata.workspace node.metadata.name
    write_over node existing

  -- The clock gives another time at another state.
  unfoldable pub soft_delete_static_node : (S → String) → StaticNode → Action S (Unit {0})
  unfolding prepare_static_node static_node_metadata_update
  soft_delete_static_node clock deleted s =
      let node = prepare_static_node deleted in
      let stamped =
        if is_blank node.metadata.deletion_timestamp
        then record node { metadata = stamp (clock s) node.metadata }
        else node in
      store.update_static_node stamped.id (static_node_metadata_update stamped) s

  unfoldable pub hard_delete_static_node : StaticNode → Action S (Unit {0})
  unfolding prepare_static_node
  hard_delete_static_node node = store.delete_static_node (prepare_static_node node).id

  unfoldable pub hard_delete_static_node_cluster : StaticNodeCluster → Action S (Unit {0})
  hard_delete_static_node_cluster cluster = store.delete_static_node_cluster cluster.id

  unfoldable pub update_static_node_cluster_status :
      StaticNodeCluster → StaticNodeClusterStatus → Action S (Unit {0})
  update_static_node_cluster_status cluster status =
      store.update_static_node_cluster cluster.id status

  -- Equal statuses are told by their fields; a nil list and an empty one are both sent as none.
  unfoldable pub update_static_node_status : StaticNode → StaticNodeStatus → Action S (Unit {0})
  unfolding prepare_static_node static_node_status_update
  update_static_node_status node status =
      if same_status node.status status
      then return tt
      else store.update_static_node (prepare_static_node node).id (static_node_status_update status)
