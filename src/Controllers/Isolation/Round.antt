-- ===== src/Controllers/Isolation/Round.antt =====
-- The rows that a whole round over a cluster does not touch.
use neutree.Prelude.{ℕ, String, true, Option, none, some, List, [], ◌∷◌, ◌≡◌, ◌≢◌, ◌∙◌, All}
use neutree.Api.StaticNode.{StaticNode}
use neutree.Api.StaticNodeCluster.{StaticNodeCluster}
use neutree.StaticCluster.NodePlan.{Planner}
use neutree.StaticCluster.Status.{Listing}
use neutree.Controllers.Isolation
use neutree.Controllers.Isolation.{
  is_foreign, upsert-Keeps, soft_delete-Keeps, list_by_cluster-Keeps,
}
use neutree.Store.{Store, StoreLaws, Action}
use neutree.Controllers.Helpers.{wrap, list_by_cluster}
use neutree.Controllers.Rounds.{Steps, FineNode, dispatch-Keeps}
use neutree.Controllers.Cluster.{dispatch, sync}
use neutree.Controllers.Keeping.{Keeps, Any, >>=-Keeps, wrap-Keeps, Holds-Any}

module _ {S : Type 0} (store : Store S) (laws : StoreLaws store) (clock : S → String)
    (cluster : StaticNodeCluster) (id : ℕ) (old : StaticNode)
    (foreign : is_foreign cluster old ≡ true) where
  abbrev Kept : S → Type 0
  Kept = Isolation.Kept store laws clock cluster id old foreign

  IsOther-FineNode :
      (nodes : List (Option StaticNode))
      → All (Isolation.IsOther store laws clock cluster id old foreign) nodes
      → All (FineNode (λ other. id ≢ other)) nodes
  IsOther-FineNode [] h = tt
  IsOther-FineNode (none ∷ nodes) h = (tt, IsOther-FineNode nodes h.1)
  IsOther-FineNode (some node ∷ nodes) h = (h.0, IsOther-FineNode nodes h.1)

  forget : {A : Type 0} (P : A → Type 0) (m : Action S A) → Keeps Kept P m → Keeps Kept Any m
  forget P m h = record { keeps = λ s kept. ((h.keeps s kept).0, Holds-Any _) }

  steps : Steps store clock cluster Kept (λ other. id ≢ other)
  steps = record {
    upserts = upsert-Keeps store laws clock cluster id old foreign;
    soft_deletes = soft_delete-Keeps store laws clock cluster id old foreign;
    lists =
        forget (All (Isolation.IsOther store laws clock cluster id old foreign)) _
          (list_by_cluster-Keeps store laws clock cluster id old foreign);
    reports = λ status. record {
      keeps = λ s kept. (laws.update_cluster_rows cluster.id status s id ∙ kept, Holds-Any _);
    };
  }

  removal-Keeps : Keeps Kept Any (store.delete_static_node_cluster cluster.id)
  removal-Keeps = record {
    keeps = λ s kept. (laws.delete_cluster_rows cluster.id s id ∙ kept, Holds-Any _);
  }

  sync-Keeps :
      (planner : Planner) (listing : Listing)
      → Keeps Kept Any (sync store clock planner listing cluster)
  unfolding sync
  sync-Keeps planner listing =
      let listed = list_by_cluster store cluster.metadata.workspace cluster.metadata.name in
      let Others = All (Isolation.IsOther store laws clock cluster id old foreign) in
      >>=-Keeps Kept Others Any (wrap "failed to list static nodes" listed)
        (dispatch store clock planner listing cluster)
        (wrap-Keeps Kept Others "failed to list static nodes" listed
          (list_by_cluster-Keeps store laws clock cluster id old foreign))
        (λ nodes h.
          dispatch-Keeps store clock cluster Kept (λ other. id ≢ other) steps planner listing nodes
            (IsOther-FineNode nodes h) (λ e. removal-Keeps))

-- A round over a cluster, of whatever kind and however it ends, leaves every node row of another
-- workspace, and every row that names another cluster as its owner, exactly as it was.
pub sync-keeps_foreign :
    {S : Type 0} (store : Store S) (laws : StoreLaws store) (clock : S → String) (planner : Planner)
    (listing : Listing) (cluster : StaticNodeCluster) (id : ℕ) (old : StaticNode) (s : S)
    → is_foreign cluster old ≡ true
    → laws.row s id ≡ some old
    → laws.row (sync store clock planner listing cluster s).0 id ≡ some old
sync-keeps_foreign store laws clock planner listing cluster id old s foreign kept =
    ((sync-Keeps store laws clock cluster id old foreign planner listing).keeps s kept).0
