-- ===== src/StaticCluster/Status/NodeFacts.antt =====
-- What one desired node does to the context that the status is computed from.
use mathlib.Core.Bool.{decide}
use Prim.Native.String.{◌++◌ as concat}
use neutree.Prelude.{
  suc, ◌≤◌, String, Bool, true, false, not, ◌&&◌, ◌||◌, Option, none, some, List, [], ◌∷◌, ◌≡◌, ◌⊎◌,
  ◌↔◌, ap, refl, ◌==◌, is_blank, if◌then◌else◌, inl, inr, all, follow, arith, Bool-cases,
}
use neutree.Api.Component.{NodeComponentSpec, NodeComponentStatus}
use neutree.Api.StaticNode.{
  StaticNode, StaticNodeSpec, StaticNodeStatus, StaticNodeSpec-discrete, spec_content,
}
use neutree.StaticCluster.Observed.{is_running}
use neutree.StaticCluster.Plan.{DesiredNodePlan}
use neutree.StaticCluster.StatusText.{desired_component_status_message}
use neutree.StaticCluster.Context.{
  StatusContext, is_ready_node, warm_is_ready, block, planned_components,
  desired_component_observed, same_spec, static_node_spec_drifted, aggregate_components,
  aggregate_node_status, count_node_status, aggregate_desired_static_node_status,
}

-- Everything that a component loop may not change, and the one flag that it may raise.
record ComponentFacts (observed : Bool) (before after : StatusContext) : Type 0 where
  desired : after.desired_nodes ≡ before.desired_nodes
  ready : after.ready_nodes ≡ before.ready_nodes
  head : after.head_ready ≡ before.head_ready
  warm : after.warm_ready ≡ before.warm_ready
  failing : after.any_node_failed ≡ before.any_node_failed
  missing : after.has_missing ≡ before.has_missing
  stale : after.has_stale ≡ before.has_stale
  spec_drift : after.has_spec_drift ≡ before.has_spec_drift
  status_drift : after.has_status_drift ≡ (before.has_status_drift || not observed)
  upgrade : after.upgrade ≡ before.upgrade

aggregate_components-ComponentFacts :
    (node_name : String) (statuses : List NodeComponentStatus) (components : List NodeComponentSpec)
    (ctx : StatusContext)
    → ComponentFacts
        (all (λ c. desired_component_observed c statuses) components)
        ctx
        (aggregate_components node_name statuses components ctx)
unfolding aggregate_components
aggregate_components-ComponentFacts node_name statuses [] ctx = ground arith
aggregate_components-ComponentFacts node_name statuses (component ∷ components) ctx =
    elim (Bool-cases (desired_component_observed component statuses)) [
      | inl e ↦ rw e (aggregate_components-ComponentFacts node_name statuses components ctx)
      | inr e ↦
          let raised = aggregate_components-ComponentFacts node_name statuses components (
            block (desired_component_status_message node_name component statuses)
              (record ctx { has_status_drift = true })) in
          rw e (ground (arith, raised))
    ]

-- The status of a component by that name, the first where there are more.
abbrev pub status_named : String → List NodeComponentStatus → Option NodeComponentStatus
status_named name [] = none
status_named name (status ∷ statuses) =
    if status.name == name then some status else status_named name statuses

-- The component runs and is ready, with the fingerprint and the image asked for, if any is.
abbrev pub runs_as : NodeComponentSpec → NodeComponentStatus → Bool
runs_as component status =
    status.ready
    && is_running status.phase
    && (is_blank component.config_hash || status.observed_hash == component.config_hash)
    && (is_blank component.image || status.observed_image == component.image)

abbrev pub runs_in : NodeComponentSpec → List NodeComponentStatus → Bool
runs_in component statuses = elim (status_named component.name statuses) [
  | none ↦ false
  | some status ↦ runs_as component status
]

observed-eq-runs_in :
    (component : NodeComponentSpec) (statuses : List NodeComponentStatus)
    → desired_component_observed component statuses ≡ runs_in component statuses
unfolding desired_component_observed
observed-eq-runs_in component [] = refl
observed-eq-runs_in component (status ∷ statuses) =
    ground (arith, observed-eq-runs_in component statuses)

all_observed-eq-runs_in :
    (components : List NodeComponentSpec) (statuses : List NodeComponentStatus)
    → all (λ c. desired_component_observed c statuses) components
      ≡ all (λ c. runs_in c statuses) components
all_observed-eq-runs_in [] statuses = refl
all_observed-eq-runs_in (component ∷ components) statuses =
    ground
      (arith, observed-eq-runs_in component statuses, all_observed-eq-runs_in components statuses)

-- A node is as desired: it runs the planned spec, is ready with its images warm, and each of the
-- planned components is observed running.
abbrev pub status_is_desired : Option StaticNodeStatus → Option StaticNodeSpec → Bool
status_is_desired none planned = false
status_is_desired (some status) planned =
    is_ready_node status.phase
    && warm_is_ready status.warm
    && all (λ c. runs_in c status.components) (planned_components planned)

abbrev pub node_is_desired : Option StaticNode → Option DesiredNodePlan → Bool
node_is_desired none plan = false
node_is_desired (some current) plan =
    let planned = follow plan (λ p. p.node) in
    not (static_node_spec_drifted planned current)
    && status_is_desired current.status (follow planned (λ n. n.spec))

abbrev content_of : Option StaticNodeSpec → Option StaticNodeSpec
content_of none = none
content_of (some spec) = some (spec_content spec)

-- The stored spec of a node has the content of the planned one; without a plan nothing is asked.
abbrev pub IsPlanned : Option StaticNodeSpec → Option StaticNode → Type 0
IsPlanned stored none = Unit
IsPlanned stored (some planned) = content_of stored ≡ content_of planned.spec

abbrev pub NodeIsDesired : Option StaticNode → Option DesiredNodePlan → Type 0
NodeIsDesired none plan = ⊥
NodeIsDesired (some current) plan =
    IsPlanned current.spec (follow plan (λ p. p.node))
    × (status_is_desired current.status (follow (follow plan (λ p. p.node)) (λ n. n.spec)) ≡ true)

decide-elim : {P : Type 0} (d : Dec P) → decide d ≡ true → P
unfolding decide
decide-elim (yes p) e = p
decide-elim (no n) e = absurd (ground (arith, e))

decide-intro : {P : Type 0} (d : Dec P) → P → decide d ≡ true
unfolding decide
decide-intro (yes p) q = refl
decide-intro (no n) q = absurd (n q)

same-content :
    (s t : Option StaticNodeSpec) → (same_spec s t ≡ true) ↔ (content_of s ≡ content_of t)
unfolding same_spec
same-content none none = (λ e. refl, λ e. refl)
same-content none (some t) = (λ e. absurd (ground (arith, e)), λ e. absurd (cc e))
same-content (some s) none = (λ e. absurd (ground (arith, e)), λ e. absurd (cc e))
same-content (some s) (some t) = (
  λ e. ap some (decide-elim (StaticNodeSpec-discrete (spec_content s) (spec_content t)) e),
  λ e. decide-intro (StaticNodeSpec-discrete (spec_content s) (spec_content t)) (cc e),
)

drifted-IsPlanned :
    (planned : Option StaticNode) (current : StaticNode)
    → (static_node_spec_drifted planned current ≡ false) ↔ IsPlanned current.spec planned
unfolding static_node_spec_drifted
drifted-IsPlanned none current = (λ e. tt, λ u. refl)
drifted-IsPlanned (some planned) current =
    let same = same-content current.spec planned.spec in
    (λ e. same.0 (ground (arith, e)), λ p. let e = same.1 p in ground (arith, e))

pub node_is_desired_iff :
    (current : Option StaticNode) (plan : Option DesiredNodePlan)
    → (node_is_desired current plan ≡ true) ↔ NodeIsDesired current plan
node_is_desired_iff none plan = (λ e. ground (arith, e), λ h. absurd h)
node_is_desired_iff (some current) plan =
    let drift = drifted-IsPlanned (follow plan (λ p. p.node)) current in
    (
      λ e. (drift.0 (ground (arith, e)), ground (arith, e)),
      λ h. let clear = drift.1 h.0 in ground (arith, clear, h.1),
    )

-- No flag is raised that speaks against readiness.
abbrev pub clean : StatusContext → Bool
clean ctx =
    not ctx.has_missing
    && not ctx.has_spec_drift
    && not ctx.has_status_drift
    && not ctx.any_node_failed
    && ctx.warm_ready

pub record NodeFacts (head ok : Bool) (before after : StatusContext) : Type 0 where
  pub desired : after.desired_nodes ≡ before.desired_nodes
  pub stale : after.has_stale ≡ before.has_stale
  pub upgrade : after.upgrade ≡ before.upgrade
  pub at_most_one : after.ready_nodes ≤ suc before.ready_nodes
  pub stays_unclean : clean before ≡ false → clean after ≡ false
  pub good :
      ok ≡ true
      → (clean after ≡ clean before)
        × (after.ready_nodes ≡ suc before.ready_nodes)
        × (after.head_ready ≡ (head || before.head_ready))
  pub bad : ok ≡ false → (clean after ≡ false) ⊎ (after.ready_nodes ≡ before.ready_nodes)

aggregate_node_status-NodeFacts :
    (node_name : String) (head : Bool) (observed : Option StaticNodeStatus)
    (planned : Option StaticNodeSpec) (ctx : StatusContext)
    → NodeFacts head
        (status_is_desired observed planned)
        ctx
        (aggregate_node_status node_name head observed planned ctx)
unfolding aggregate_node_status
aggregate_node_status-NodeFacts node_name head none planned ctx = ground arith
aggregate_node_status-NodeFacts node_name head (some status) planned ctx =
    let components =
      aggregate_components-ComponentFacts node_name status.components (planned_components planned)
        (count_node_status node_name head status ctx) in
    let same = all_observed-eq-runs_in (planned_components planned) status.components in
    ground (arith, components, same)

pub node-NodeFacts :
    (node_name : String) (head : Bool) (current : Option StaticNode) (plan : Option DesiredNodePlan)
    (ctx : StatusContext)
    → NodeFacts head
        (node_is_desired current plan)
        ctx
        (aggregate_desired_static_node_status node_name head current plan ctx)
unfolding aggregate_desired_static_node_status
node-NodeFacts node_name head none plan ctx = ground arith
node-NodeFacts node_name head (some current) plan ctx =
    let planned = follow plan (λ p. p.node) in
    elim (Bool-cases (static_node_spec_drifted planned current)) [
      | inl e ↦
          let drifted =
            aggregate_node_status-NodeFacts node_name head current.status
              (follow planned (λ n. n.spec))
              (block (concat "static node " (concat node_name " spec is not observed"))
                (record ctx { has_spec_drift = true })) in
          rw e (ground (arith, drifted))
      | inr e ↦ rw e (
          aggregate_node_status-NodeFacts node_name head current.status
            (follow planned (λ n. n.spec)) ctx)
    ]
