-- ===== src/Controllers/Isolation.antt =====
-- The rows that the steps of a round over a cluster do not touch.
pub mod Round
use mathlib.Core.Path.{subst}
use neutree.Prelude.{
  ℕ, zero, String, Bool, true, false, not, ◌&&◌, ◌||◌, Option, none, some, List, [], ◌∷◌, ◌≡◌, ◌≢◌,
  refl, sym, ap, ◌∙◌, ◌==◌, All, is_blank, is_empty, contains, arith, Bool-cases, Option-cases, inl,
  inr, length, if◌then◌else◌, eq_iff,
}
use neutree.Prelude.Result.{Result, ok, err, Holds, Result-cases}
use neutree.Api.Meta.{is_force_delete}
use neutree.Api.StaticNode.{StaticNode, StaticNodeSpec}
use neutree.Api.StaticNodeCluster.{StaticNodeCluster, StaticNodeClusterStatus}
use neutree.StaticNode.Head.{belongs_to, keep_by_cluster}
use neutree.StaticCluster.Plan.{DesiredNodePlan}
use neutree.StaticCluster.NodePlan.{Planner}
use neutree.StaticCluster.Planner.{plan}
use neutree.StaticCluster.Planner.Origin.{IsOwn, OwnNode, IsOwn-OwnNode, plan-IsOwn}
use neutree.StaticCluster.Status.{Listing, aggregate, require_ray_cluster_ready}
use neutree.Store.{
  Store, StoreLaws, Action, Filter, NodePatch, return, lift, cluster_filters, ◌>>=◌,
}
use neutree.Controllers.Helpers.{
  wrap, find_in, validate_static_node_owner, prepare_static_node, static_node_desired_update,
  find_static_node, list_by_cluster, write_over, upsert_static_node, soft_delete_static_node,
}
use neutree.Controllers.Cluster.{
  stored, upsert_plans, delete_if_stale, delete_stale, apply_cluster, reported, update_status,
  report_normal, reconcile_normal, delete_node, delete_nodes, report_delete, report_removal,
  reconcile_delete, dispatch, sync, force_annotated, desired_names, upsert_message, stale_message,
  force_message, delete_message,
}
use neutree.Controllers.Keeping.{
  Keeps, Any, continue-Keeps, >>=-Keeps, return-Keeps, fail-Keeps, lift-Keeps, wrap-Keeps, if-Keeps,
  Holds-Any,
}

some_injective : {a b : StaticNode} → some a ≡ some b → a ≡ b
some_injective {a} h = ap (λ o. elim o [ none ↦ a | some x ↦ x ]) h

abbrev other_owner : String → Option StaticNodeSpec → Bool
other_owner name none = false
other_owner name (some spec) =
    not (is_blank name) && not (is_blank spec.cluster) && not (spec.cluster == name)

-- The node is of another workspace, or owned by another cluster.
abbrev pub is_foreign : StaticNodeCluster → StaticNode → Bool
is_foreign cluster node =
    not (node.metadata.workspace == cluster.metadata.workspace)
    || other_owner cluster.metadata.name node.spec

foreign-belongs :
    (cluster : StaticNodeCluster) (node : StaticNode)
    → is_foreign cluster node ≡ true
    → belongs_to cluster.metadata.workspace cluster.metadata.name node ≡ false
foreign-belongs cluster node h = elim (Option-cases node.spec) [
  | inl e ↦ rw e refl
  | inr (spec, e) ↦ ground (arith, h, e)
]

-- A node of this cluster is not written over a foreign one of its workspace.
owner_is_refused :
    (cluster : StaticNodeCluster) (existing desired : StaticNode)
    → is_foreign cluster existing ≡ true
    → (existing.metadata.workspace == cluster.metadata.workspace) ≡ true
    → OwnNode cluster desired
    → validate_static_node_owner existing desired ≢ none
unfolding validate_static_node_owner
owner_is_refused cluster existing desired h w own = elim (Option-cases existing.spec) [
  | inl e ↦ absurd (ground (arith, h, w, e))
  | inr (spec, e) ↦
      let has_spec = own.has_spec in
      let owner = own.owner in rw e (rw has_spec (ground (arith, h, w, e, owner)))
]

module _ {S : Type 0} (store : Store S) (laws : StoreLaws store) (clock : S → String)
    (cluster : StaticNodeCluster) (id : ℕ) (old : StaticNode)
    (foreign : is_foreign cluster old ≡ true) where
  -- The row is as it was.
  abbrev pub Kept : S → Type 0
  Kept s = laws.row s id ≡ some old

  abbrev IsOld : StaticNode → Type 0
  IsOld node = node.id ≡ id → node ≡ old

  abbrev pub IsOther : Option StaticNode → Type 0
  IsOther none = Unit
  IsOther (some node) = id ≢ node.id

  abbrev IsFound : Option StaticNode → Type 0
  IsFound none = Unit
  IsFound (some node) =
      IsOld node × ((node.metadata.workspace == cluster.metadata.workspace) ≡ true)

  listed-IsOld :
      (s : S) (nodes : List StaticNode)
      → Kept s
      → All (λ node. laws.row s node.id ≡ some node) nodes
      → All IsOld nodes
  listed-IsOld s [] kept rows = tt
  listed-IsOld s (node ∷ nodes) kept rows =
      let here = rows.0 in
      (
        (λ same. some_injective (sym here ∙ ap (laws.row s) same ∙ kept)),
        listed-IsOld s nodes kept rows.1,
      )

  list-Keeps : (filters : List Filter) → Keeps Kept (All IsOld) (store.list_static_node filters)
  list-Keeps filters = record {
    keeps = λ s kept. (
      ap (λ t. laws.row t id) (laws.list_same filters s) ∙ kept,
      elim (Result-cases (store.list_static_node filters s).1) [
        | inl (nodes, e) ↦
            rw (e, Holds) (listed-IsOld s nodes kept (laws.list_rows filters s nodes e))
        | inr (error, e) ↦ rw (e, Holds) tt
      ],
    );
  }

  find_in-IsFound :
      (name : String) (nodes : List StaticNode)
      → All IsOld nodes
      → IsFound (find_in cluster.metadata.workspace name nodes)
  unfolding find_in
  find_in-IsFound name [] olds = tt
  find_in-IsFound name (node ∷ nodes) olds =
      elim (Bool-cases
        (node.metadata.workspace == cluster.metadata.workspace && node.metadata.name == name)) [
          | inl e ↦ rw (e, IsFound) (olds.0, ground (arith, e))
          | inr e ↦ rw (e, IsFound) (find_in-IsFound name nodes olds.1)
        ]

  not_listed :
      (node : StaticNode)
      → IsOld node
      → belongs_to cluster.metadata.workspace cluster.metadata.name node ≡ true
      → id ≢ node.id
  not_listed node is_old e same =
      let mine = belongs_to cluster.metadata.workspace cluster.metadata.name in
      let clash = sym e ∙ ap mine (is_old (sym same)) ∙ foreign-belongs cluster old foreign in
      absurd (ground (arith, clash))

  kept_nodes-IsOther :
      (nodes : List StaticNode)
      → All IsOld nodes
      → All IsOther (keep_by_cluster cluster.metadata.workspace cluster.metadata.name nodes)
  unfolding keep_by_cluster
  kept_nodes-IsOther [] olds = tt
  kept_nodes-IsOther (node ∷ nodes) olds =
      let rest = kept_nodes-IsOther nodes olds.1 in
      elim (Bool-cases (belongs_to cluster.metadata.workspace cluster.metadata.name node)) [
        | inl e ↦ rw e (not_listed node olds.0 e, rest)
        | inr e ↦ rw e rest
      ]

  pub list_by_cluster-Keeps :
      Keeps Kept
        (All IsOther)
        (list_by_cluster store cluster.metadata.workspace cluster.metadata.name)
  unfolding list_by_cluster
  list_by_cluster-Keeps =
      >>=-Keeps Kept (All IsOld) (All IsOther)
        (store.list_static_node (cluster_filters cluster.metadata.workspace cluster.metadata.name))
        _ (list-Keeps (cluster_filters cluster.metadata.workspace cluster.metadata.name))
        (λ nodes olds. return-Keeps Kept (All IsOther) _ (kept_nodes-IsOther nodes olds))

  find-Keeps :
      (name : String) → Keeps Kept IsFound (find_static_node store cluster.metadata.workspace name)
  unfolding find_static_node
  find-Keeps name =
      >>=-Keeps Kept (All IsOld) IsFound (store.list_static_node _) _ (list-Keeps _)
        (λ nodes olds. return-Keeps Kept IsFound _ (find_in-IsFound name nodes olds))

  update-Keeps :
      (other : ℕ) (patch : NodePatch)
      → id ≢ other
      → Keeps Kept Any (store.update_static_node other patch)
  update-Keeps other patch differ = record {
    keeps = λ s kept. (laws.update_frame other patch s id differ ∙ kept, Holds-Any _);
  }

  not_found :
      (existing desired : StaticNode)
      → IsFound (some existing)
      → OwnNode cluster desired
      → validate_static_node_owner existing desired ≡ none
      → id ≢ existing.id
  not_found existing desired found own valid same =
      let is_old = found.0 (sym same) in
      owner_is_refused cluster existing desired (ap (is_foreign cluster) is_old ∙ foreign) found.1
        own valid

  write_over-Keeps :
      (node : StaticNode) (existing : Option StaticNode)
      → OwnNode cluster node
      → IsFound existing
      → Keeps Kept Any (write_over store node existing)
  unfolding write_over
  write_over-Keeps node none own found =
      >>=-Keeps Kept Any Any (store.create_static_node node) _
        (record {
          keeps = λ s kept. (laws.create_keeps node s id old own.is_new kept, Holds-Any _);
        })
        (λ u v. return-Keeps Kept Any node tt)
  write_over-Keeps node (some existing) own found =
      elim (Option-cases (validate_static_node_owner existing node)) [
        | inl e ↦
            rw (e, write_over)
              (>>=-Keeps Kept Any Any (store.update_static_node existing.id _) _
                (update-Keeps existing.id _ (not_found existing node found own e))
                (λ u v. return-Keeps Kept Any _ tt))
        | inr (error, e) ↦ rw (e, write_over) (fail-Keeps Kept Any error)
      ]

  prepared-OwnNode :
      (node : StaticNode) → OwnNode cluster node → OwnNode cluster (prepare_static_node node)
  unfolding prepare_static_node
  prepared-OwnNode node own = record {
    is_new = own.is_new;
    is_here = own.is_here;
    spec = own.spec;
    has_spec = own.has_spec;
    owner = own.owner;
  }

  pub upsert-Keeps :
      (node : StaticNode) → OwnNode cluster node → Keeps Kept Any (upsert_static_node store node)
  unfolding upsert_static_node
  upsert-Keeps desired own =
      let node = prepare_static_node desired in
      let prepared = prepared-OwnNode desired own in
      let here = prepared.is_here in
      >>=-Keeps Kept IsFound Any (find_static_node store node.metadata.workspace node.metadata.name)
        _ (rw here (find-Keeps node.metadata.name))
        (λ existing found. write_over-Keeps node existing prepared found)

  pub soft_delete-Keeps :
      (node : StaticNode) → id ≢ node.id → Keeps Kept Any (soft_delete_static_node store clock node)
  unfolding soft_delete_static_node prepare_static_node
  soft_delete-Keeps node differ = elim (Bool-cases (is_blank node.metadata.deletion_timestamp)) [
    | inl e ↦ record {
      keeps =
          λ s kept. rw (e, soft_delete_static_node) ((update-Keeps node.id _ differ).keeps s kept);
    }
    | inr e ↦ record {
      keeps =
          λ s kept. rw (e, soft_delete_static_node) ((update-Keeps node.id _ differ).keeps s kept);
    }
  ]
