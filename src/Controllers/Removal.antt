-- ===== src/Controllers/Removal.antt =====
-- When the row of a cluster may go.
use neutree.Prelude.{
  ℕ, String, Bool, true, false, Option, none, some, List, [], ◌∷◌, ◌≡◌, refl, sym, ap, ◌∙◌, All,
  Among, is_empty, arith, Bool-cases, Option-cases, inl, inr,
}
use neutree.Prelude.Result.{Result, ok, err}
use neutree.Api.StaticNode.{StaticNode}
use neutree.Api.StaticNodeCluster.{StaticNodeCluster}
use neutree.StaticNode.Head.{belongs_to, keep_by_cluster}
use neutree.StaticCluster.NodePlan.{Planner}
use neutree.StaticCluster.Status.{Listing}
use neutree.Store.{continue, Store, StoreLaws, Filter, NodePatch, return, cluster_filters}
use neutree.Controllers.Helpers.{
  wrapped, validate_static_node_owner, find_static_node, list_by_cluster, write_over,
  upsert_static_node, soft_delete_static_node, prepare_static_node,
}
use neutree.Controllers.Cluster.{dispatch, sync}
use neutree.Controllers.Keeping.{Keeps, Any, >>=-Keeps, return-Keeps, fail-Keeps, Holds-Any}
use neutree.Controllers.Rounds.{Steps, FineNode, dispatch-Keeps}

module _ {S : Type 0} (store : Store S) (laws : StoreLaws store) (clock : S → String)
    (cluster : StaticNodeCluster) (id : ℕ) (here : Bool) where
  -- The cluster's row is there, or not there, as before.
  abbrev Same : S → Type 0
  Same s = laws.has_cluster s id ≡ here

  list-Same : (filters : List Filter) → Keeps Same Any (store.list_static_node filters)
  list-Same filters = record {
    keeps =
        λ s same. (ap (λ t. laws.has_cluster t id) (laws.list_same filters s) ∙ same, Holds-Any _);
  }

  update-Same :
      (other : ℕ) (patch : NodePatch) → Keeps Same Any (store.update_static_node other patch)
  update-Same other patch = record {
    keeps = λ s same. (laws.update_clusters other patch s id ∙ same, Holds-Any _);
  }

  list_by_cluster-Same :
      (workspace name : String) → Keeps Same Any (list_by_cluster store workspace name)
  unfolding list_by_cluster
  list_by_cluster-Same workspace name =
      >>=-Keeps Same Any Any (store.list_static_node (cluster_filters workspace name)) _
        (list-Same (cluster_filters workspace name))
        (λ nodes u. return-Keeps Same Any (keep_by_cluster workspace name nodes) tt)

  write_over-Same :
      (node : StaticNode) (existing : Option StaticNode)
      → Keeps Same Any (write_over store node existing)
  unfolding write_over
  write_over-Same node none =
      >>=-Keeps Same Any Any (store.create_static_node node) _
        (record { keeps = λ s same. (laws.create_clusters node s id ∙ same, Holds-Any _) })
        (λ u v. return-Keeps Same Any node tt)
  write_over-Same node (some existing) =
      elim (Option-cases (validate_static_node_owner existing node)) [
        | inl e ↦
            rw (e, write_over)
              (>>=-Keeps Same Any Any (store.update_static_node existing.id _) _
                (update-Same existing.id _) (λ u v. return-Keeps Same Any _ tt))
        | inr (error, e) ↦ rw (e, write_over) (fail-Keeps Same Any error)
      ]

  upsert-Same : (node : StaticNode) → Keeps Same Any (upsert_static_node store node)
  unfolding upsert_static_node find_static_node
  upsert-Same desired =
      let node = prepare_static_node desired in
      let find = find_static_node store node.metadata.workspace node.metadata.name in
      >>=-Keeps Same Any Any find (write_over store node)
        (>>=-Keeps Same Any Any (store.list_static_node _) _ (list-Same _)
          (λ nodes u. return-Keeps Same Any _ tt))
        (λ existing u. write_over-Same node existing)

  soft_delete-Same : (node : StaticNode) → Keeps Same Any (soft_delete_static_node store clock node)
  unfolding soft_delete_static_node
  soft_delete-Same node = record { keeps = λ s same. (update-Same _ _).keeps s same }

  steps : Steps store clock cluster Same Any
  steps = record {
    upserts = λ node own. upsert-Same node;
    soft_deletes = λ node u. soft_delete-Same node;
    lists = list_by_cluster-Same cluster.metadata.workspace cluster.metadata.name;
    reports = λ status. record {
      keeps = λ s same. (laws.update_cluster_clusters cluster.id status s id ∙ same, Holds-Any _);
    };
  }

  Any-FineNode : (nodes : List (Option StaticNode)) → All (FineNode Any) nodes
  Any-FineNode [] = tt
  Any-FineNode (none ∷ nodes) = (tt, Any-FineNode nodes)
  Any-FineNode (some node ∷ nodes) = (tt, Any-FineNode nodes)

  dispatch-Same :
      (planner : Planner) (listing : Listing) (nodes : List (Option StaticNode))
      → is_empty nodes ≡ false
      → Keeps Same Any (dispatch store clock planner listing cluster nodes)
  dispatch-Same planner listing nodes e =
      dispatch-Keeps store clock cluster Same Any steps planner listing nodes (Any-FineNode nodes)
        (λ f. absurd (ground (arith, e, f)))

  -- What the round makes of a listing that is not empty of the cluster's nodes.
  listed-Same :
      (planner : Planner) (listing : Listing) (o : S × Result (List StaticNode))
      → Same o.0
      → ((nodes : List StaticNode)
          → o.1 ≡ ok nodes
          → is_empty (keep_by_cluster cluster.metadata.workspace cluster.metadata.name nodes)
            ≡ false)
      → Same
          (continue
            (wrapped "failed to list static nodes" (
              continue o (λ nodes.
                return (keep_by_cluster cluster.metadata.workspace cluster.metadata.name nodes))))
            (dispatch store clock planner listing cluster)).0
  listed-Same planner listing (s, ok nodes) same h =
      ((dispatch-Same planner listing _ (h nodes refl)).keeps s same).0
  listed-Same planner listing (s, err error) same h = same

kept-not_empty :
    (workspace name : String) (node : StaticNode) (nodes : List StaticNode)
    → Among node nodes
    → belongs_to workspace name node ≡ true
    → is_empty (keep_by_cluster workspace name nodes) ≡ false
unfolding keep_by_cluster
kept-not_empty workspace name node [] among mine = absurd among
kept-not_empty workspace name node (first ∷ nodes) (inl e) mine =
    let here = ap (belongs_to workspace name) (sym e) ∙ mine in rw here refl
kept-not_empty workspace name node (first ∷ nodes) (inr among) mine =
    let rest = kept-not_empty workspace name node nodes among mine in
    elim (Bool-cases (belongs_to workspace name first)) [ inl e ↦ rw e refl | inr e ↦ rw e rest ]

-- While a node of the cluster is stored, a round over the cluster removes no cluster's row, the
-- cluster's own included, however the round ends and whether or not the deletion is forced.
pub sync-keeps_cluster :
    {S : Type 0} (store : Store S) (laws : StoreLaws store) (clock : S → String) (planner : Planner)
    (listing : Listing) (cluster : StaticNodeCluster) (s : S) (node_id : ℕ) (node : StaticNode)
    (id : ℕ)
    → laws.row s node_id ≡ some node
    → belongs_to cluster.metadata.workspace cluster.metadata.name node ≡ true
    → laws.has_cluster (sync store clock planner listing cluster s).0 id ≡ laws.has_cluster s id
unfolding sync list_by_cluster
sync-keeps_cluster store laws clock planner listing cluster s node_id node id stored mine =
    let workspace = cluster.metadata.workspace in
    let name = cluster.metadata.name in
    let filters = cluster_filters workspace name in
    listed-Same store laws clock cluster id (laws.has_cluster s id) planner listing
      (store.list_static_node filters s)
      (ap (λ t. laws.has_cluster t id) (laws.list_same filters s))
      (λ nodes e.
        kept-not_empty workspace name node nodes
          (laws.list_all workspace name s nodes node_id node e stored mine) mine)
