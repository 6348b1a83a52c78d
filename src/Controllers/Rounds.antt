-- ===== src/Controllers/Rounds.antt =====
-- What a round over a cluster keeps, from what its calls keep.
use neutree.Prelude.{
  ℕ, String, Bool, true, not, ◌&&◌, Option, none, some, List, [], ◌∷◌, ◌≡◌, refl, ap, ◌∙◌, All,
  is_blank, is_empty, contains, if◌then◌else◌,
}
use neutree.Prelude.Result.{Result, ok, err, Holds}
use neutree.Api.Meta.{is_force_delete}
use neutree.Api.StaticNode.{StaticNode}
use neutree.Api.StaticNodeCluster.{StaticNodeCluster, StaticNodeClusterStatus}
use neutree.StaticCluster.Plan.{DesiredNodePlan}
use neutree.StaticCluster.NodePlan.{Planner}
use neutree.StaticCluster.Planner.{plan}
use neutree.StaticCluster.Planner.Origin.{origin, IsOwn, IsOwn-OwnNode, OwnNode, plan-IsOwn}
use neutree.StaticCluster.Status.{Listing, aggregate, require_ray_cluster_ready}
use neutree.Store.{Store, return, lift}
use neutree.Controllers.Helpers.{
  wrap, hard_delete_static_node_cluster, update_static_node_cluster_status, list_by_cluster,
  upsert_static_node, soft_delete_static_node,
}
use neutree.Controllers.Cluster.{
  upsert_plans, delete_if_stale, delete_stale, apply_cluster, reported, update_status,
  report_normal, reconcile_normal, delete_node, delete_nodes, report_delete, report_removal,
  reconcile_delete, dispatch, force_annotated, desired_names, blank_status,
  static_node_cluster_failed_status, static_node_cluster_deleting_status, stale_message,
  force_message, delete_message,
}
use neutree.Controllers.Keeping.{
  Keeps, Any, >>=-Keeps, return-Keeps, lift-Keeps, wrap-Keeps, if-Keeps, Holds-Any,
}

-- What each kind of call in a round keeps: the nodes that are written are the cluster's own, those
-- that are marked for deletion have a `Fine` id.
pub record Steps {S : Type 0} (store : Store S) (clock : S → String) (cluster : StaticNodeCluster)
    (Good : S → Type 0) (Fine : ℕ → Type 0) : Type 0 where
  pub upserts :
      (node : StaticNode) → OwnNode cluster node → Keeps Good Any (upsert_static_node store node)
  pub soft_deletes :
      (node : StaticNode) → Fine node.id → Keeps Good Any (soft_delete_static_node store clock node)
  pub lists :
      Keeps Good Any (list_by_cluster store cluster.metadata.workspace cluster.metadata.name)
  pub reports :
      (status : StaticNodeClusterStatus)
      → Keeps Good Any (store.update_static_node_cluster cluster.id status)

-- The nodes that a loop is given.
abbrev pub FineNode : (ℕ → Type 0) → Option StaticNode → Type 0
FineNode Fine none = Unit
FineNode Fine (some node) = Fine node.id

module _ {S : Type 0} (store : Store S) (clock : S → String) (cluster : StaticNodeCluster)
    (Good : S → Type 0) (Fine : ℕ → Type 0) (steps : Steps store clock cluster Good Fine) where
  abbrev IsFine : Option StaticNode → Type 0
  IsFine = FineNode Fine

  IsOwn-Keeps-node :
      (p : DesiredNodePlan) (plans : List DesiredNodePlan)
      → IsOwn cluster p
      → Keeps Good Any (upsert_plans store plans)
      → (node : Option StaticNode) → node ≡ p.node
      → Keeps Good Any (upsert_plans store (p ∷ plans))
  unfolding upsert_plans
  IsOwn-Keeps-node p plans own rest none e =
      rw (← e, upsert_plans)
        (>>=-Keeps Good Any Any (upsert_plans store plans) _ rest
          (λ written w. return-Keeps Good Any _ tt))
  IsOwn-Keeps-node p plans own rest (some desired) e =
      let own_node = IsOwn-OwnNode cluster desired (ap origin e ∙ own) in
      rw (← e, upsert_plans)
        (>>=-Keeps Good Any Any (wrap _ (upsert_static_node store desired)) _
          (wrap-Keeps Good Any _ (upsert_static_node store desired)
            (steps.upserts desired own_node))
          (λ node v.
            >>=-Keeps Good Any Any (upsert_plans store plans) _ rest
              (λ written w. return-Keeps Good Any _ tt)))

  upsert_plans-Keeps :
      (plans : List DesiredNodePlan)
      → All (IsOwn cluster) plans
      → Keeps Good Any (upsert_plans store plans)
  unfolding upsert_plans
  upsert_plans-Keeps [] own = return-Keeps Good Any [] tt
  upsert_plans-Keeps (p ∷ plans) own =
      IsOwn-Keeps-node p plans own.0 (upsert_plans-Keeps plans own.1) p.node refl

  delete_if_stale-Keeps :
      (desired : List String) (node : Option StaticNode)
      → IsFine node
      → Keeps Good Any (delete_if_stale store clock desired node)
  unfolding delete_if_stale
  delete_if_stale-Keeps desired none h = return-Keeps Good Any tt tt
  delete_if_stale-Keeps desired (some node) h =
      if-Keeps Good Any (contains desired node.metadata.name) (return tt)
        (wrap (stale_message node.metadata.name) (soft_delete_static_node store clock node))
        (return-Keeps Good Any tt tt)
        (wrap-Keeps Good Any _ (soft_delete_static_node store clock node)
          (steps.soft_deletes node h))

  delete_stale-Keeps :
      (desired : List String) (nodes : List (Option StaticNode))
      → All IsFine nodes
      → Keeps Good Any (delete_stale store clock desired nodes)
  unfolding delete_stale
  delete_stale-Keeps desired [] h = return-Keeps Good Any tt tt
  delete_stale-Keeps desired (node ∷ nodes) h =
      >>=-Keeps Good Any Any (delete_if_stale store clock desired node) _
        (delete_if_stale-Keeps desired node h.0) (λ u v. delete_stale-Keeps desired nodes h.1)

  delete_node-Keeps :
      (is_force : Bool) (node : Option StaticNode)
      → IsFine node
      → Keeps Good Any (delete_node store clock is_force node)
  unfolding delete_node
  delete_node-Keeps is_force none h = return-Keeps Good Any tt tt
  delete_node-Keeps is_force (some node) h =
      let name = node.metadata.name in
      let plain = soft_delete_static_node store clock node in
      let forced = soft_delete_static_node store clock (force_annotated node) in
      let deleting = not (is_blank node.metadata.deletion_timestamp) in
      if-Keeps Good Any (is_force && not (is_force_delete node.metadata.annotations))
        (wrap (force_message name) forced)
        (if deleting then return tt else wrap (delete_message name) plain)
        (wrap-Keeps Good Any (force_message name) forced
          (steps.soft_deletes (force_annotated node) h))
        (if-Keeps Good Any deleting (return tt) (wrap (delete_message name) plain)
          (return-Keeps Good Any tt tt)
          (wrap-Keeps Good Any (delete_message name) plain (steps.soft_deletes node h)))

  delete_nodes-Keeps :
      (is_force : Bool) (nodes : List (Option StaticNode))
      → All IsFine nodes
      → Keeps Good Any (delete_nodes store clock is_force nodes)
  unfolding delete_nodes
  delete_nodes-Keeps is_force [] h = return-Keeps Good Any tt tt
  delete_nodes-Keeps is_force (node ∷ nodes) h =
      >>=-Keeps Good Any Any (delete_node store clock is_force node) _
        (delete_node-Keeps is_force node h.0) (λ u v. delete_nodes-Keeps is_force nodes h.1)

  apply_cluster-Keeps :
      (planner : Planner) (listing : Listing) (nodes : List (Option StaticNode))
      → All IsFine nodes
      → Keeps Good Any (apply_cluster store clock planner listing cluster nodes)
  unfolding apply_cluster
  apply_cluster-Keeps planner listing nodes h =
      let latest = list_by_cluster store cluster.metadata.workspace cluster.metadata.name in
      >>=-Keeps Good (All (IsOwn cluster)) Any (lift (plan planner (some cluster) nodes)) _
        (lift-Keeps Good (All (IsOwn cluster)) (plan planner (some cluster) nodes)
          (plan-IsOwn planner cluster nodes))
        (λ plans own.
          >>=-Keeps Good Any Any (upsert_plans store plans) _ (upsert_plans-Keeps plans own)
            (λ written w.
              >>=-Keeps Good Any Any (delete_stale store clock (desired_names plans) nodes) _
                (delete_stale-Keeps (desired_names plans) nodes h)
                (λ u v.
                  >>=-Keeps Good Any Any (wrap "failed to list latest static nodes" latest)
                    (λ latest_nodes. return (
                      require_ray_cluster_ready (some cluster) listing
                        (aggregate (some cluster) latest_nodes written)))
                    (wrap-Keeps Good Any "failed to list latest static nodes" latest steps.lists)
                    (λ latest_nodes x. return-Keeps Good Any _ tt))))

  reported-keeps :
      (message : String) (error : Option String) (o : S × Result (Unit {0}))
      → Good o.0
      → Good (reported message error o).0 × Holds Any (reported message error o).1
  reported-keeps message (some error) (s, outcome) good = (good, tt)
  reported-keeps message none (s, ok u) good = (good, tt)
  reported-keeps message none (s, err error) good = (good, tt)

  update_status-Keeps :
      (status : StaticNodeClusterStatus) (message : String) (error : Option String)
      → Keeps Good Any (update_status store cluster status message error)
  unfolding update_status update_static_node_cluster_status
  update_status-Keeps status message error = record {
    keeps = λ s good.
        reported-keeps message error (store.update_static_node_cluster cluster.id status s)
          ((steps.reports status).keeps s good).0;
  }

  report_normal-keeps :
      (o : S × Result StaticNodeClusterStatus) → Good o.0 → Good (report_normal store cluster o).0
  unfolding report_normal
  report_normal-keeps (s, ok status) good =
      ((update_status-Keeps status "failed to update static node cluster status" none).keeps s
        good).0
  report_normal-keeps (s, err error) good =
      ((update_status-Keeps (static_node_cluster_failed_status blank_status error)
          "failed to update static node cluster status" (some error)).keeps
        s good).0

  report_delete-keeps :
      (count : ℕ) (o : S × Result (Unit {0}))
      → Good o.0
      → Good (report_delete store cluster count o).0
  unfolding report_delete
  report_delete-keeps count (s, ok u) good =
      ((update_status-Keeps (static_node_cluster_deleting_status count none)
          "failed to update static node cluster deletion status" none).keeps
        s good).0
  report_delete-keeps count (s, err error) good =
      ((update_status-Keeps (static_node_cluster_deleting_status count (some error))
          "failed to update static node cluster deletion status" (some error)).keeps
        s good).0

  report_removal-keeps :
      (o : S × Result (Unit {0})) → Good o.0 → Good (report_removal store cluster o).0
  unfolding report_removal
  report_removal-keeps (s, ok u) good = good
  report_removal-keeps (s, err error) good = report_delete-keeps 0 (s, err error) good

  reconcile_normal-Keeps :
      (planner : Planner) (listing : Listing) (nodes : List (Option StaticNode))
      → All IsFine nodes
      → Keeps Good Any (reconcile_normal store clock planner listing cluster nodes)
  unfolding reconcile_normal
  reconcile_normal-Keeps planner listing nodes h = record {
    keeps = λ s good. (
      report_normal-keeps _ ((apply_cluster-Keeps planner listing nodes h).keeps s good).0,
      Holds-Any _,
    );
  }

  reconcile_delete-Keeps :
      (nodes : List (Option StaticNode))
      → All IsFine nodes
      → (is_empty nodes ≡ true → Keeps Good Any (store.delete_static_node_cluster cluster.id))
      → Keeps Good Any (reconcile_delete store clock cluster nodes)
  unfolding reconcile_delete hard_delete_static_node_cluster
  reconcile_delete-Keeps [] h removal = record {
    keeps = λ s good. (
      report_removal-keeps (store.delete_static_node_cluster cluster.id s)
          ((removal refl).keeps s good).0,
      Holds-Any _,
    );
  }
  reconcile_delete-Keeps (node ∷ nodes) h removal = record {
    keeps = λ s good. (
      report_delete-keeps _ _
          ((delete_nodes-Keeps (is_force_delete cluster.metadata.annotations) (node ∷ nodes)
              h).keeps
            s good).0,
      Holds-Any _,
    );
  }

  pub dispatch-Keeps :
      (planner : Planner) (listing : Listing) (nodes : List (Option StaticNode))
      → All IsFine nodes
      → (is_empty nodes ≡ true → Keeps Good Any (store.delete_static_node_cluster cluster.id))
      → Keeps Good Any (dispatch store clock planner listing cluster nodes)
  unfolding dispatch
  dispatch-Keeps planner listing nodes h removal =
      if-Keeps Good Any (not (is_blank cluster.metadata.deletion_timestamp))
        (reconcile_delete store clock cluster nodes)
        (reconcile_normal store clock planner listing cluster nodes)
        (reconcile_delete-Keeps nodes h removal) (reconcile_normal-Keeps planner listing nodes h)
