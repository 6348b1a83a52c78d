-- ===== src/StaticCluster/Upgrade/Targets.antt =====
-- What an upgrade step leaves of the plans.
use neutree.Prelude.{
  String, false, Option, none, some, List, [], ◌≡◌, refl, inl, inr, map, map-map_same, Option-cases,
}
use neutree.Prelude.Dict.{lookup}
use neutree.Api.StaticNode.{StaticNode, StaticNodeSpec}
use neutree.Api.StaticNodeCluster.{StaticNodeCluster}
use neutree.StaticCluster.Plan.{DesiredNodePlan}
use neutree.StaticCluster.Upgrade.{
  UpgradeStep, stage_spec, stage_node, stage_plan, apply_ray_recreate_upgrade_plan,
}
use neutree.StaticCluster.Upgrade.Apply.{upgrade_here, apply-eq-map, apply-eq_self}

-- A plan with the components of its spec forgotten.
abbrev pub clear_components : Option StaticNodeSpec → Option StaticNodeSpec
clear_components none = none
clear_components (some spec) = some (record spec { components = []; components_allocated = false })

abbrev pub clear_node : Option StaticNode → Option StaticNode
clear_node none = none
clear_node (some node) = some (record node { spec = clear_components node.spec })

abbrev pub without_components : DesiredNodePlan → DesiredNodePlan
without_components plan = record plan { node = clear_node plan.node }

clear-stage_spec :
    (step : UpgradeStep) (current : Option StaticNode) (spec : Option StaticNodeSpec)
    → clear_components (stage_spec step current spec) ≡ clear_components spec
unfolding stage_spec
clear-stage_spec step current none = refl
clear-stage_spec step current (some spec) = refl

clear-stage_node :
    (step : UpgradeStep) (current_by_name : List (String × StaticNode)) (node : Option StaticNode)
    → clear_node (stage_node step current_by_name node) ≡ clear_node node
unfolding stage_node
clear-stage_node step current_by_name none = refl
clear-stage_node step current_by_name (some node) =
    cc (clear-stage_spec step (lookup node.metadata.name current_by_name) node.spec)

without_components-stage :
    (step : UpgradeStep) (current_by_name : List (String × StaticNode)) (plan : DesiredNodePlan)
    → without_components (stage_plan step current_by_name plan) ≡ without_components plan
unfolding stage_plan
without_components-stage step current_by_name plan =
    cc (clear-stage_node step current_by_name plan.node)

module _ (cluster : Option StaticNodeCluster) (current_by_name : List (String × StaticNode))
    (plans : List DesiredNodePlan) where
  -- Staging changes neither which nodes are planned nor their roles and addresses, nor the target
  -- components; only `Spec.Components` of a plan may differ.
  pub apply_keeps :
      map without_components (apply_ray_recreate_upgrade_plan cluster current_by_name plans)
      ≡ map without_components plans
  apply_keeps = elim (Option-cases (upgrade_here cluster current_by_name plans)) [
    | inl e ↦ rw (apply-eq_self cluster current_by_name plans e)
    | inr (upgrade, e) ↦ rw (apply-eq-map cluster current_by_name plans upgrade e) (
        map-map_same without_components without_components (stage_plan upgrade.step current_by_name)
          plans (λ plan. without_components-stage upgrade.step current_by_name plan))
  ]
