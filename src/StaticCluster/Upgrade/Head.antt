-- ===== src/StaticCluster/Upgrade/Head.antt =====
-- What an upgrade step lets the head node run.
use neutree.Prelude.{
  String, false, Option, none, some, List, [], ◌≡◌, follow, All, All-map, arith, is_empty,
}
use neutree.Prelude.Dict.{lookup}
use neutree.Api.Component.{NodeComponentSpec}
use neutree.Api.StaticNode.{StaticNode, StaticNodeSpec, StaticNodeRole, head}
use neutree.Api.StaticNodeCluster.{StaticNodeCluster}
use neutree.StaticCluster.Plan.{DesiredNodePlan, use_current_components_if_present}
use neutree.StaticCluster.Upgrade.{
  UpgradeStep, UpgradeState, warming, stopping_workers, starting_head, starting_workers, verifying,
  stage_components, stage_spec, stage_node, stage_plan, apply_ray_recreate_upgrade_plan,
}
use neutree.StaticCluster.Upgrade.Apply.{upgrade_here, apply-eq-map}

-- The steps at which the head is not touched.
abbrev pub KeepsHead : UpgradeStep → Type 0
KeepsHead warming = Unit
KeepsHead stopping_workers = Unit
KeepsHead _ = ⊥

abbrev pub current_components : Option StaticNode → List NodeComponentSpec
current_components current = elim (follow current (λ n. n.spec)) [
  | none ↦ []
  | some spec ↦ spec.components
]

abbrev pub SpecRunsCurrent : List NodeComponentSpec → Option StaticNodeSpec → Type 0
SpecRunsCurrent current none = Unit
SpecRunsCurrent current (some spec) =
    spec.role ≡ head → is_empty current ≡ false → spec.components ≡ current

abbrev pub NodeRunsCurrent : List (String × StaticNode) → Option StaticNode → Type 0
NodeRunsCurrent current_by_name none = Unit
NodeRunsCurrent current_by_name (some node) =
    SpecRunsCurrent (current_components (lookup node.metadata.name current_by_name)) node.spec

-- The plan of the head node asks for the components that the node has now, if it has any.
abbrev pub HeadRunsCurrent : List (String × StaticNode) → DesiredNodePlan → Type 0
HeadRunsCurrent current_by_name plan = NodeRunsCurrent current_by_name plan.node

use_current-eq-current :
    (components : List NodeComponentSpec) (current : Option StaticNode)
    → is_empty (current_components current) ≡ false
    → use_current_components_if_present components current ≡ current_components current
unfolding use_current_components_if_present
use_current-eq-current components current h = ground arith

stage_components-head :
    (step : UpgradeStep) (role : StaticNodeRole) (current : Option StaticNode)
    (components : List NodeComponentSpec)
    → KeepsHead step
    → role ≡ head
    → is_empty (current_components current) ≡ false
    → stage_components step role current components ≡ current_components current
unfolding stage_components
stage_components-head warming role current components h r p =
    use_current-eq-current components current p
stage_components-head stopping_workers role current components h r p =
    rw r (use_current-eq-current components current p)
stage_components-head starting_head role current components h r p = absurd h
stage_components-head starting_workers role current components h r p = absurd h
stage_components-head verifying role current components h r p = absurd h

stage_spec-RunsCurrent :
    (step : UpgradeStep) (current : Option StaticNode) (spec : Option StaticNodeSpec)
    → KeepsHead step
    → SpecRunsCurrent (current_components current) (stage_spec step current spec)
unfolding stage_spec
stage_spec-RunsCurrent step current none h = tt
stage_spec-RunsCurrent step current (some spec) h =
    λ r p. stage_components-head step spec.role current spec.components h r p

stage_node-HeadRunsCurrent :
    (step : UpgradeStep) (current_by_name : List (String × StaticNode)) (node : Option StaticNode)
    → KeepsHead step
    → NodeRunsCurrent current_by_name (stage_node step current_by_name node)
unfolding stage_node
stage_node-HeadRunsCurrent step current_by_name none h = tt
stage_node-HeadRunsCurrent step current_by_name (some node) h =
    stage_spec-RunsCurrent step (lookup node.metadata.name current_by_name) node.spec h

module _ (cluster : Option StaticNodeCluster) (current_by_name : List (String × StaticNode))
    (plans : List DesiredNodePlan) where
  -- While the images are warmed and while the workers stop, the plan of the head node asks for the
  -- components that the node runs now, if it runs any.
  pub apply-HeadRunsCurrent :
      (upgrade : UpgradeState)
      → upgrade_here cluster current_by_name plans ≡ some upgrade
      → KeepsHead upgrade.step
      → All
          (HeadRunsCurrent current_by_name)
          (apply_ray_recreate_upgrade_plan cluster current_by_name plans)
  unfolding stage_plan stage_node
  apply-HeadRunsCurrent upgrade e h = rw (apply-eq-map cluster current_by_name plans upgrade e) (
      All-map (HeadRunsCurrent current_by_name) (stage_plan upgrade.step current_by_name) plans
        (λ plan. stage_node-HeadRunsCurrent upgrade.step current_by_name plan.node h))
