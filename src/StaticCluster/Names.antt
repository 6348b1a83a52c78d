-- ===== src/StaticCluster/Names.antt =====
-- Roles, node names and the maps by name (helpers.go, components.go, upgrade.go, status.go).
-- A Go set of names is a list in which no name is repeated.
use neutree.Prelude.{
  String, Bool, true, false, not, ◌&&◌, Option, none, some, List, [], ◌∷◌, ◌++◌, follow, contains,
  is_blank, if◌then◌else◌,
}
use neutree.Prelude.Dict.{insert}
use neutree.Api.StaticNode.{StaticNodeRole, head, worker, other, StaticNode}
use neutree.Api.StaticNodeCluster.{
  StaticNodeClusterNodeSpec, StaticNodeClusterSpec, StaticNodeCluster,
}

unfoldable pub normalize_static_node_role : StaticNodeRole → StaticNodeRole
normalize_static_node_role head = head
normalize_static_node_role worker = worker
normalize_static_node_role (other _) = worker

-- `role == v1.StaticNodeRoleHead`, and the same for the worker.
abbrev pub is_head : StaticNodeRole → Bool
is_head head = true
is_head worker = false
is_head (other _) = false

abbrev pub is_worker : StaticNodeRole → Bool
is_worker head = false
is_worker worker = true
is_worker (other _) = false

-- `cluster == nil || cluster.Spec == nil` is the test that this is nil.
abbrev pub cluster_spec : Option StaticNodeCluster → Option StaticNodeClusterSpec
cluster_spec cluster = follow cluster (λ c. c.spec)

-- The nodes of the spec, none where the cluster or its spec is nil.
unfoldable pub cluster_nodes : Option StaticNodeCluster → List StaticNodeClusterNodeSpec
cluster_nodes cluster = elim (cluster_spec cluster) [ none ↦ [] | some spec ↦ spec.nodes ]

abbrev pub set_add : List String → String → List String
set_add names name = if contains names name then names else names ++ name ∷ []

-- The loop of `staticNodeByName`, from the map built so far.
unfoldable pub static_node_by_name_from :
    List (String × StaticNode) → List (Option StaticNode) → List (String × StaticNode)
static_node_by_name_from result [] = result
static_node_by_name_from result (none ∷ nodes) = static_node_by_name_from result nodes
static_node_by_name_from result (some node ∷ nodes) =
    static_node_by_name_from (insert node.metadata.name node result) nodes

unfoldable pub static_node_by_name : List (Option StaticNode) → List (String × StaticNode)
unfolding static_node_by_name_from insert
static_node_by_name nodes = static_node_by_name_from [] nodes

unfoldable pub first_head : List StaticNodeClusterNodeSpec → Option StaticNodeClusterNodeSpec
unfolding normalize_static_node_role
first_head [] = none
first_head (node ∷ nodes) =
    if is_head (normalize_static_node_role node.role) then some node else first_head nodes

unfoldable pub static_node_cluster_head_name : Option StaticNodeCluster → String
unfolding cluster_nodes first_head
static_node_cluster_head_name cluster = elim (first_head (cluster_nodes cluster)) [
  | none ↦ ""
  | some node ↦ node.name
]

unfoldable pub static_node_cluster_head_ip : Option StaticNodeCluster → String
unfolding cluster_nodes first_head
static_node_cluster_head_ip cluster = elim (first_head (cluster_nodes cluster)) [
  | none ↦ ""
  | some node ↦ node.ip
]

unfoldable pub worker_names_from : List String → List StaticNodeClusterNodeSpec → List String
unfolding normalize_static_node_role
worker_names_from names [] = names
worker_names_from names (node ∷ nodes) =
    worker_names_from
      (if is_worker (normalize_static_node_role node.role) && not (is_blank node.name)
        then set_add names node.name
        else names)
      nodes

unfoldable pub static_node_cluster_worker_names : Option StaticNodeCluster → List String
unfolding worker_names_from cluster_nodes
static_node_cluster_worker_names cluster = worker_names_from [] (cluster_nodes cluster)

-- The names of `staticNodeClusterDesiredNodeNames`, in the order of the spec.
unfoldable pub desired_node_names_from : List String → List StaticNodeClusterNodeSpec → List String
desired_node_names_from names [] = names
desired_node_names_from names (node ∷ nodes) =
    desired_node_names_from (if is_blank node.name then names else set_add names node.name) nodes

unfoldable pub static_node_cluster_desired_node_names : Option StaticNodeCluster → List String
unfolding desired_node_names_from cluster_nodes
static_node_cluster_desired_node_names cluster = desired_node_names_from [] (cluster_nodes cluster)
