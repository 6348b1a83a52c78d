-- ===== src/StaticCluster/Status/FoldFacts.antt =====
-- What the loops over the observed and the desired nodes do to the status context.
use neutree.Prelude.{
  ◌+◌, ◌≤◌, ◌<◌, String, Bool, true, false, not, ◌||◌, Option, none, some, List, [], ◌∷◌, ◌≡◌, ◌⊎◌,
  inl, inr, all, contains, length, ◌==◌, arith, Bool-cases,
}
use neutree.Prelude.Dict.{lookup}
use neutree.Api.StaticNode.{StaticNode}
use neutree.StaticCluster.Plan.{DesiredNodePlan}
use neutree.StaticCluster.Context.{
  StatusContext, aggregate_stale, mark_stale, aggregate_desired,
  aggregate_desired_static_node_status,
}
use neutree.StaticCluster.Status.NodeFacts.{node_is_desired, clean, node-NodeFacts}

-- An observed node is one of the desired ones. A nil element is passed over.
abbrev pub is_wanted : List String → Option StaticNode → Bool
is_wanted desired none = true
is_wanted desired (some node) = contains desired node.metadata.name

pub record StaleFacts (wanted : Bool) (before after : StatusContext) : Type 0 where
  pub desired : after.desired_nodes ≡ before.desired_nodes
  pub ready : after.ready_nodes ≡ before.ready_nodes
  pub head : after.head_ready ≡ before.head_ready
  pub cleanliness : clean after ≡ clean before
  pub stale : after.has_stale ≡ (before.has_stale || not wanted)
  pub upgrade : after.upgrade ≡ before.upgrade

pub aggregate_stale-StaleFacts :
    (desired : List String) (nodes : List (Option StaticNode)) (ctx : StatusContext)
    → StaleFacts (all (is_wanted desired) nodes) ctx (aggregate_stale desired nodes ctx)
unfolding aggregate_stale
aggregate_stale-StaleFacts desired [] ctx = ground arith
aggregate_stale-StaleFacts desired (none ∷ nodes) ctx = aggregate_stale-StaleFacts desired nodes ctx
aggregate_stale-StaleFacts desired (some node ∷ nodes) ctx =
    let rest = aggregate_stale-StaleFacts desired nodes (mark_stale desired node ctx) in
    ground (arith, rest)

pub record FoldFacts (names : List String) (head_name : String) (ok : Bool)
    (before after : StatusContext) : Type 0 where
  pub desired : after.desired_nodes ≡ before.desired_nodes
  pub stale : after.has_stale ≡ before.has_stale
  pub upgrade : after.upgrade ≡ before.upgrade
  pub at_most : after.ready_nodes ≤ before.ready_nodes + length names
  pub stays_unclean : clean before ≡ false → clean after ≡ false
  pub good :
      ok ≡ true
      → (clean after ≡ clean before)
        × (after.ready_nodes ≡ before.ready_nodes + length names)
        × (after.head_ready ≡ (contains names head_name || before.head_ready))
  pub bad :
      ok ≡ false → (clean after ≡ false) ⊎ (after.ready_nodes < before.ready_nodes + length names)

module _ (head_name : String) (current_by_name : List (String × StaticNode))
    (plans_by_name : List (String × DesiredNodePlan)) where
  abbrev pub is_desired : String → Bool
  is_desired name = node_is_desired (lookup name current_by_name) (lookup name plans_by_name)

  pub aggregate_desired-FoldFacts :
      (names : List String) (ctx : StatusContext)
      → FoldFacts names head_name
          (all is_desired names)
          ctx
          (aggregate_desired head_name current_by_name plans_by_name names ctx)
  unfolding aggregate_desired
  aggregate_desired-FoldFacts [] ctx = ground arith
  aggregate_desired-FoldFacts (name ∷ names) ctx =
      let after =
        aggregate_desired_static_node_status name (name == head_name) (lookup name current_by_name)
          (lookup name plans_by_name) ctx in
      let here =
        node-NodeFacts name (name == head_name) (lookup name current_by_name)
          (lookup name plans_by_name) ctx in
      let rest = aggregate_desired-FoldFacts names after in
      elim (Bool-cases (is_desired name)) [
        | inl e ↦ rw e (ground (arith, here, rest, e))
        | inr e ↦ rw e (ground (arith, here, rest, e))
      ]
