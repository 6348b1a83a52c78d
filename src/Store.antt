-- ===== src/Store.antt =====
-- The tables of static nodes and of static-node clusters, as the controllers reach them
-- (pkg/storage/storage.go: StaticNodeStorage, StaticNodeClusterStorage). Behind the operations
-- stands PostgREST, a service: they are functions on its state `S`, with laws on the rows.
use neutree.Prelude.{
  ℕ, String, Bool, true, Option, some, List, [], ◌∷◌, All, Among, is_nil, none, ◌≡◌, ◌≢◌,
}
use neutree.Prelude.Result.{Result, ok, err}
use neutree.Api.Meta.{Metadata}
use neutree.Api.StaticNode.{StaticNode, StaticNodeSpec, StaticNodeStatus}
use neutree.Api.StaticNodeCluster.{StaticNodeClusterStatus}
use neutree.StaticNode.Head.{belongs_to}

-- A `v1.StaticNode` in which only some fields are set, as it is sent for an update.
pub record NodePatch : Type 0 where
  pub id : ℕ
  pub api_version : String
  pub kind : String
  pub metadata : Option Metadata
  pub spec : Option StaticNodeSpec
  pub status : Option StaticNodeStatus

-- A call of the service: the state behind it comes back after an error too.
abbrev pub Action : Type 0 → Type 0 → Type 0
Action S A = S → S × Result A

-- `Filter{Column, "eq", Value}`
pub record Filter : Type 0 where
  pub column : String
  pub value : String

-- The filters of `staticnode.ListByCluster`.
abbrev pub cluster_filters : String → String → List Filter
cluster_filters workspace cluster_name =
    record { column = "metadata->>workspace"; value = workspace }
    ∷ record { column = "spec->>cluster"; value = cluster_name }
    ∷ []

pub record Store (S : Type 0) : Type 0 where
  pub list_static_node : List Filter → Action S (List StaticNode)
  pub create_static_node : StaticNode → Action S (Unit {0})
  pub update_static_node : ℕ → NodePatch → Action S (Unit {0})
  pub delete_static_node : ℕ → Action S (Unit {0})
  pub update_static_node_cluster : ℕ → StaticNodeClusterStatus → Action S (Unit {0})
  pub delete_static_node_cluster : ℕ → Action S (Unit {0})

-- A call is about the rows with the id that it is given, whether it succeeds or not; a listing
-- changes nothing and gives rows of the table, every row of a cluster when the cluster's rows are
-- asked for; an update keeps a row a row, and a deletion that succeeds removes it; a row without an id is inserted beside the others.
pub record StoreLaws {S : Type 0} (store : Store S) : Type 0 where
  pub row : S → ℕ → Option StaticNode
  pub has_cluster : S → ℕ → Bool
  pub list_same : (filters : List Filter) (s : S) → (store.list_static_node filters s).0 ≡ s
  pub list_rows :
      (filters : List Filter) (s : S) (nodes : List StaticNode)
      → (store.list_static_node filters s).1 ≡ ok nodes
      → All (λ node. row s node.id ≡ some node) nodes
  pub list_all :
      (workspace cluster_name : String) (s : S) (nodes : List StaticNode) (id : ℕ)
      (node : StaticNode)
      → (store.list_static_node (cluster_filters workspace cluster_name) s).1 ≡ ok nodes
      → row s id ≡ some node
      → belongs_to workspace cluster_name node ≡ true
      → Among node nodes
  pub create_keeps :
      (node : StaticNode) (s : S) (id : ℕ) (old : StaticNode)
      → node.id ≡ 0
      → row s id ≡ some old
      → row (store.create_static_node node s).0 id ≡ some old
  pub update_frame :
      (id : ℕ) (patch : NodePatch) (s : S) (other : ℕ)
      → other ≢ id
      → row (store.update_static_node id patch s).0 other ≡ row s other
  pub update_presence :
      (id : ℕ) (patch : NodePatch) (s : S) (other : ℕ)
      → is_nil (row (store.update_static_node id patch s).0 other) ≡ is_nil (row s other)
  pub delete_gone :
      (id : ℕ) (s : S)
      → (store.delete_static_node id s).1 ≡ ok tt
      → row (store.delete_static_node id s).0 id ≡ none
  pub delete_frame :
      (id : ℕ) (s : S) (other : ℕ)
      → other ≢ id
      → row (store.delete_static_node id s).0 other ≡ row s other
  pub update_cluster_rows :
      (id : ℕ) (status : StaticNodeClusterStatus) (s : S) (other : ℕ)
      → row (store.update_static_node_cluster id status s).0 other ≡ row s other
  pub delete_cluster_rows :
      (id : ℕ) (s : S) (other : ℕ)
      → row (store.delete_static_node_cluster id s).0 other ≡ row s other
  pub create_clusters :
      (node : StaticNode) (s : S) (id : ℕ)
      → has_cluster (store.create_static_node node s).0 id ≡ has_cluster s id
  pub update_clusters :
      (id : ℕ) (patch : NodePatch) (s : S) (other : ℕ)
      → has_cluster (store.update_static_node id patch s).0 other ≡ has_cluster s other
  pub update_cluster_clusters :
      (id : ℕ) (status : StaticNodeClusterStatus) (s : S) (other : ℕ)
      → has_cluster (store.update_static_node_cluster id status s).0 other ≡ has_cluster s other

abbrev pub continue : {S A B : Type 0} → S × Result A → (A → Action S B) → S × Result B
continue (s, ok a) f = f a s
continue (s, err error) f = (s, err error)

infixl 5 ◌>>=◌ ◌>>◌
abbrev pub ◌>>=◌ : {S A B : Type 0} → Action S A → (A → Action S B) → Action S B
(m >>= f) s = continue (m s) f

abbrev pub ◌>>◌ : {S A B : Type 0} → Action S A → Action S B → Action S B
m >> k = m >>= λ _. k

abbrev pub return : {S A : Type 0} → A → Action S A
return a s = (s, ok a)

abbrev pub fail : {S A : Type 0} → String → Action S A
fail error s = (s, err error)

abbrev pub lift : {S A : Type 0} → Result A → Action S A
lift result s = (s, result)
