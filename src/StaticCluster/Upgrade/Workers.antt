-- ===== src/StaticCluster/Upgrade/Workers.antt =====
-- What an upgrade step lets the worker nodes run.
use neutree.Prelude.{
  String, Bool, false, Option, none, some, List, [], ◌∷◌, ◌≡◌, refl, follow, any, All, All-map,
  arith,
}
use neutree.Prelude.Dict.{lookup}
use neutree.Api.Component.{NodeComponentSpec}
use neutree.Api.StaticNode.{StaticNode, StaticNodeSpec, worker}
use neutree.Api.StaticNodeCluster.{StaticNodeCluster}
use neutree.StaticCluster.Plan.{
  DesiredNodePlan, plan_spec, is_ray_worker_component_name, remove_ray_worker_component,
  use_current_components_if_present,
}
use neutree.StaticCluster.Upgrade.{
  UpgradeStep, UpgradeState, stopping_workers, starting_head, stage_components, stage_spec,
  stage_node, stage_plan, apply_ray_recreate_upgrade_plan,
}
use neutree.StaticCluster.Upgrade.Apply.{upgrade_here, apply-eq-map}

-- The steps at which no worker may run.
abbrev pub KeepsWorkersDown : UpgradeStep → Type 0
KeepsWorkersDown stopping_workers = Unit
KeepsWorkersDown starting_head = Unit
KeepsWorkersDown _ = ⊥

abbrev pub has_ray_worker : List NodeComponentSpec → Bool
has_ray_worker = any (λ c. is_ray_worker_component_name c.name)

abbrev pub SpecHasNoRayWorker : Option StaticNodeSpec → Type 0
SpecHasNoRayWorker none = Unit
SpecHasNoRayWorker (some spec) = spec.role ≡ worker → has_ray_worker spec.components ≡ false

-- The plan of a worker node asks for no Ray worker.
abbrev pub HasNoRayWorker : DesiredNodePlan → Type 0
HasNoRayWorker plan = SpecHasNoRayWorker (plan_spec plan)

has_ray_worker-remove :
    (components : List NodeComponentSpec)
    → has_ray_worker (remove_ray_worker_component components) ≡ false
unfolding remove_ray_worker_component
has_ray_worker-remove [] = refl
has_ray_worker-remove (component ∷ components) = ground (arith, has_ray_worker-remove components)

stage_components-HasNoRayWorker :
    (step : UpgradeStep) (current : Option StaticNode) (components : List NodeComponentSpec)
    → KeepsWorkersDown step
    → has_ray_worker (stage_components step worker current components) ≡ false
unfolding stage_components
stage_components-HasNoRayWorker stopping_workers current components h =
    has_ray_worker-remove (use_current_components_if_present components current)
stage_components-HasNoRayWorker starting_head current components h =
    has_ray_worker-remove (use_current_components_if_present components current)
stage_components-HasNoRayWorker _ current components h = absurd h

stage_spec-HasNoRayWorker :
    (step : UpgradeStep) (current : Option StaticNode) (spec : Option StaticNodeSpec)
    → KeepsWorkersDown step
    → SpecHasNoRayWorker (stage_spec step current spec)
unfolding stage_spec
stage_spec-HasNoRayWorker step current none h = tt
stage_spec-HasNoRayWorker step current (some spec) h =
    λ e. rw e (stage_components-HasNoRayWorker step current spec.components h)

stage_node-HasNoRayWorker :
    (step : UpgradeStep) (current_by_name : List (String × StaticNode)) (node : Option StaticNode)
    → KeepsWorkersDown step
    → SpecHasNoRayWorker (follow (stage_node step current_by_name node) (λ n. n.spec))
unfolding stage_node
stage_node-HasNoRayWorker step current_by_name none h = tt
stage_node-HasNoRayWorker step current_by_name (some node) h =
    stage_spec-HasNoRayWorker step (lookup node.metadata.name current_by_name) node.spec h

module _ (cluster : Option StaticNodeCluster) (current_by_name : List (String × StaticNode))
    (plans : List DesiredNodePlan) where
  -- While the upgrade stops the workers or starts the head, no plan of a worker node asks for a
  -- Ray worker, whatever the node runs now.
  pub apply-HasNoRayWorker :
      (upgrade : UpgradeState)
      → upgrade_here cluster current_by_name plans ≡ some upgrade
      → KeepsWorkersDown upgrade.step
      → All HasNoRayWorker (apply_ray_recreate_upgrade_plan cluster current_by_name plans)
  unfolding stage_plan stage_node
  apply-HasNoRayWorker upgrade e h = rw (apply-eq-map cluster current_by_name plans upgrade e) (
      All-map HasNoRayWorker (stage_plan upgrade.step current_by_name) plans
        (λ plan. stage_node-HasNoRayWorker upgrade.step current_by_name plan.node h))
