-- ===== src/StaticCluster/Plan.antt =====
-- The desired state of one node (`DesiredNodePlan` of planner.go), and the components in it.
use neutree.Prelude.{
  String, Bool, Option, none, some, List, [], ◌∷◌, ◌==◌, ◌||◌, is_empty, follow, text_le, keep, not,
  if◌then◌else◌,
}
use neutree.Api.Component.{NodeComponentSpec}
use neutree.Api.StaticNode.{StaticNode, StaticNodeSpec, StaticNodeAcceleratorStatus}

abbrev pub ray_head_component_name : String
ray_head_component_name = "ray-head"

abbrev pub ray_worker_component_name : String
ray_worker_component_name = "ray-worker"

abbrev pub is_ray_head_component_name : String → Bool
is_ray_head_component_name name = name == ray_head_component_name

abbrev pub is_ray_worker_component_name : String → Bool
is_ray_worker_component_name name = name == ray_worker_component_name

abbrev pub is_ray_component_name : String → Bool
is_ray_component_name name = is_ray_head_component_name name || is_ray_worker_component_name name

pub record DesiredNodePlan : Type 0 where
  pub node : Option StaticNode
  pub accelerator : Option StaticNodeAcceleratorStatus
  pub target_components : List NodeComponentSpec

-- `plan.Node == nil || plan.Node.Spec == nil` is the test that this is nil.
abbrev pub plan_spec : DesiredNodePlan → Option StaticNodeSpec
plan_spec plan = follow plan.node (λ n. n.spec)

-- The first component of that name.
unfoldable pub component_by_name : List NodeComponentSpec → String → Option NodeComponentSpec
component_by_name [] name = none
component_by_name (component ∷ components) name =
    if component.name == name then some component else component_by_name components name

-- `node.Spec.Components = components`
abbrev pub set_components : StaticNode → StaticNodeSpec → List NodeComponentSpec → StaticNode
set_components node spec components = record node {
  spec = some (record spec { components = components });
}

unfoldable pub remove_ray_worker_component : List NodeComponentSpec → List NodeComponentSpec
remove_ray_worker_component components =
    keep (λ c. not (is_ray_worker_component_name c.name)) components

-- The components of `current`, where it has any.
unfoldable pub use_current_components_if_present :
    List NodeComponentSpec → Option StaticNode → List NodeComponentSpec
use_current_components_if_present components current = elim (follow current (λ n. n.spec)) [
  | none ↦ components
  | some spec ↦ if is_empty spec.components then components else spec.components
]

abbrev pub plan_name : DesiredNodePlan → String
plan_name plan = elim plan.node [ none ↦ "" | some node ↦ node.metadata.name ]

-- `sort.SliceStable` by name.
unfoldable pub insert_plan : DesiredNodePlan → List DesiredNodePlan → List DesiredNodePlan
insert_plan plan [] = plan ∷ []
insert_plan plan (first ∷ plans) =
    if text_le (plan_name plan) (plan_name first)
    then plan ∷ first ∷ plans
    else first ∷ insert_plan plan plans

unfoldable pub sort_plans : List DesiredNodePlan → List DesiredNodePlan
unfolding insert_plan
sort_plans [] = []
sort_plans (plan ∷ plans) = insert_plan plan (sort_plans plans)
