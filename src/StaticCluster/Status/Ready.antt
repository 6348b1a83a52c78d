-- ===== src/StaticCluster/Status/Ready.antt =====
-- When a cluster is reported Ready.
use mathlib.Core.Path.{subst}
use neutree.Prelude.{
  ◌<◌, String, Bool, true, false, not, Option, none, some, List, [], ◌∷◌, ◌≡◌, refl, sym, ◌∙◌, ◌⊎◌,
  inl, inr, ◌↔◌, all, All, all-All, All-all, contains, length, is_empty, nat_eq, arith, Bool-cases,
}
use neutree.Prelude.Sorting.{length-sort_texts, all-sort_texts, contains-sort_texts}
use neutree.Prelude.Dict.{lookup}
use neutree.Api.StaticNode.{StaticNode}
use neutree.Api.StaticNodeCluster.{StaticNodeCluster, StaticNodeClusterPhase}
use neutree.StaticCluster.Names.{
  static_node_by_name, static_node_cluster_desired_node_names, static_node_cluster_head_name,
}
use neutree.StaticCluster.Plan.{DesiredNodePlan}
use neutree.StaticCluster.Upgrade.{UpgradeState, static_node_cluster_upgrade}
use neutree.StaticCluster.Context.{
  StatusContext, static_node_cluster_plan_by_name, aggregate_stale, aggregate_desired,
  initial_status_context, build_static_node_cluster_status_context,
  static_node_cluster_desired_node_name_list,
}
use neutree.StaticCluster.Status.{determine_static_node_cluster_phase, aggregate}
use neutree.StaticCluster.Status.NodeFacts.{clean, NodeIsDesired, node_is_desired_iff}
use neutree.StaticCluster.Status.FoldFacts.{
  FoldFacts, is_wanted, is_desired, aggregate_stale-StaleFacts, aggregate_desired-FoldFacts,
}

-- The upgrade, if there is one, has its Ray runtime observed at the target.
abbrev pub upgrade_at_target : Option UpgradeState → Bool
upgrade_at_target none = true
upgrade_at_target (some upgrade) = upgrade.target_runtime_observed

determine-ready :
    (ctx : StatusContext)
    → determine_static_node_cluster_phase ctx ≡ StaticNodeClusterPhase.ready
    → (nat_eq ctx.desired_nodes 0 ≡ false)
      × (clean ctx ≡ true)
      × (ctx.has_stale ≡ false)
      × (ctx.ready_nodes ≡ ctx.desired_nodes)
      × (ctx.head_ready ≡ true)
      × (upgrade_at_target ctx.upgrade ≡ true)
unfolding determine_static_node_cluster_phase
determine-ready ctx h = ground arith

ready-determine :
    (ctx : StatusContext)
    → nat_eq ctx.desired_nodes 0 ≡ false
    → clean ctx ≡ true
    → ctx.has_stale ≡ false
    → ctx.ready_nodes ≡ ctx.desired_nodes
    → ctx.head_ready ≡ true
    → upgrade_at_target ctx.upgrade ≡ true
    → determine_static_node_cluster_phase ctx ≡ StaticNodeClusterPhase.ready
unfolding determine_static_node_cluster_phase
ready-determine ctx a b c d e f = ground arith

length-zero : (xs : List String) → is_empty xs ≡ true → nat_eq (length xs) 0 ≡ true
length-zero [] h = refl
length-zero (x ∷ xs) h = cc

length-nonzero : (xs : List String) → is_empty xs ≡ false → nat_eq (length xs) 0 ≡ false
length-nonzero [] h = cc (sym h)
length-nonzero (x ∷ xs) h = ground arith

module _ (cluster : Option StaticNodeCluster) (nodes : List (Option StaticNode))
    (plans : List DesiredNodePlan) where
  abbrev names : List String
  names = static_node_cluster_desired_node_names cluster

  abbrev sorted : List String
  sorted = static_node_cluster_desired_node_name_list cluster

  abbrev node_desired : String → Bool
  node_desired =
      is_desired (static_node_cluster_head_name cluster) (static_node_by_name nodes)
        (static_node_cluster_plan_by_name plans)

  -- The node by that name is as its plan wants it.
  abbrev IsDesired : String → Type 0
  IsDesired name =
      NodeIsDesired (lookup name (static_node_by_name nodes))
        (lookup name (static_node_cluster_plan_by_name plans))

  node-IsDesired : (name : String) → (node_desired name ≡ true) ↔ IsDesired name
  node-IsDesired name =
      node_is_desired_iff (lookup name (static_node_by_name nodes))
        (lookup name (static_node_cluster_plan_by_name plans))

  -- What it takes for a cluster to be ready, told of the nodes one by one.
  pub record IsConverged : Type 0 where
    pub some_desired : is_empty names ≡ false
    pub none_stale : All (λ node. is_wanted names node ≡ true) nodes
    pub each_desired : All IsDesired names
    pub head_desired : contains names (static_node_cluster_head_name cluster) ≡ true
    pub at_target : upgrade_at_target (static_node_cluster_upgrade cluster nodes plans) ≡ true

  aggregate-phase :
      (aggregate cluster nodes plans).phase
      ≡ determine_static_node_cluster_phase
          (build_static_node_cluster_status_context cluster nodes plans)
  unfolding aggregate
  aggregate-phase = ground arith

  -- The context that all nodes have gone into, told by the nodes.
  record BuildFacts (ok : Bool) (ctx : StatusContext) : Type 0 where
    desired : ctx.desired_nodes ≡ length names
    upgrade : ctx.upgrade ≡ static_node_cluster_upgrade cluster nodes plans
    stale : ctx.has_stale ≡ not (all (is_wanted names) nodes)
    good :
        ok ≡ true
        → (clean ctx ≡ true)
          × (ctx.ready_nodes ≡ length names)
          × (ctx.head_ready ≡ contains names (static_node_cluster_head_name cluster))
    bad : ok ≡ false → (clean ctx ≡ false) ⊎ (ctx.ready_nodes < length names)

  length-sorted : length sorted ≡ length names
  unfolding static_node_cluster_desired_node_name_list
  length-sorted = length-sort_texts names

  all-sorted : (p : String → Bool) → all p sorted ≡ all p names
  unfolding static_node_cluster_desired_node_name_list
  all-sorted p = all-sort_texts p names

  contains-sorted : (name : String) → contains sorted name ≡ contains names name
  unfolding static_node_cluster_desired_node_name_list
  contains-sorted name = contains-sort_texts name names

  build-BuildFacts :
      is_empty names ≡ false
      → BuildFacts
          (all node_desired names)
          (build_static_node_cluster_status_context cluster nodes plans)
  unfolding build_static_node_cluster_status_context
  build-BuildFacts h =
      let head_name = static_node_cluster_head_name cluster in
      let start = initial_status_context cluster nodes plans in
      let stale = aggregate_stale-StaleFacts names nodes start in
      let stale_ctx = aggregate_stale names nodes start in
      let end =
        aggregate_desired head_name (static_node_by_name nodes)
          (static_node_cluster_plan_by_name plans) sorted stale_ctx in
      let fold : FoldFacts sorted head_name (all node_desired names) stale_ctx end =
        subst (λ ok. FoldFacts sorted head_name ok stale_ctx end) (all-sorted node_desired)
          (aggregate_desired-FoldFacts head_name (static_node_by_name nodes)
            (static_node_cluster_plan_by_name plans) sorted stale_ctx) in
      rw (length-nonzero names h)
        (ground (arith, stale, fold, length-sorted, contains-sorted head_name))

  empty-failed :
      is_empty names ≡ true → (aggregate cluster nodes plans).phase ≡ StaticNodeClusterPhase.failed
  unfolding build_static_node_cluster_status_context determine_static_node_cluster_phase
  empty-failed h = let counted = length-zero names h in aggregate-phase ∙ ground (arith, counted)

  to_converged : (aggregate cluster nodes plans).phase ≡ StaticNodeClusterPhase.ready → IsConverged
  to_converged h = elim (Bool-cases (is_empty names)) [
    | inl e ↦ absurd (ground (arith, empty-failed e))
    | inr e ↦
        let ctx = build_static_node_cluster_status_context cluster nodes plans in
        let facts = build-BuildFacts e in
        let verdict = determine-ready ctx (sym aggregate-phase ∙ h) in
        record {
          some_desired = e;
          none_stale =
              all-All _ (is_wanted names) nodes (λ n w. w) (ground (arith, facts, verdict));
          each_desired =
              all-All IsDesired node_desired names (λ n w. (node-IsDesired n).0 w)
                (ground (arith, facts, verdict));
          head_desired = ground (arith, facts, verdict);
          at_target = ground (arith, facts, verdict);
        }
  ]

  of_converged : IsConverged → (aggregate cluster nodes plans).phase ≡ StaticNodeClusterPhase.ready
  of_converged c =
      let ctx = build_static_node_cluster_status_context cluster nodes plans in
      let facts = build-BuildFacts c.some_desired in
      let wanted : all (is_wanted names) nodes ≡ true =
        All-all _ (is_wanted names) nodes (λ n w. w) c.none_stale in
      let ok : all node_desired names ≡ true =
        All-all IsDesired node_desired names (λ n w. (node-IsDesired n).1 w) c.each_desired in
      let counted = length-nonzero names c.some_desired in
      aggregate-phase
      ∙ ready-determine ctx (ground (arith, facts, counted)) (ground (arith, facts, ok))
          (ground (arith, facts, wanted)) (ground (arith, facts, ok))
          (ground (arith, facts, ok, c.head_desired)) (ground (arith, facts, c.at_target))

  -- A cluster is reported Ready exactly when it has desired nodes, every observed node is a desired
  -- one, every desired node is observed with a stored spec of the same content as its planned one and
  -- with a status that is ready, warm and has every planned component running as asked, the head is
  -- one of them, and an upgrade under way has reached its target.
  pub aggregate-ready_iff :
      ((aggregate cluster nodes plans).phase ≡ StaticNodeClusterPhase.ready) ↔ IsConverged
  aggregate-ready_iff = (to_converged, of_converged)
