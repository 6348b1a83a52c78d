-- ===== src/StaticCluster/Planner/Shape.antt =====
-- The nodes of the plans.
use neutree.Prelude.{
  ℕ, String, Option, none, some, List, [], ◌∷◌, ◌≡◌, refl, sym, ap, ◌∙◌, suc, map, Option-cases,
  inl, inr, map-map_same, arith, if◌then◌else◌, insert_text, sort_texts,
}
use neutree.Prelude.Dict.{lookup}
use neutree.Prelude.Result.{Result, ok, err, Result-cases}
use neutree.Api.Component.{NodeComponentConfigFile}
use neutree.Api.StaticNode.{StaticNode, StaticNodeSpec}
use neutree.Api.StaticNodeCluster.{
  StaticNodeClusterNodeSpec, StaticNodeClusterSpec, StaticNodeCluster,
}
use neutree.StaticCluster.Names.{normalize_static_node_role, static_node_by_name, is_head}
use neutree.StaticCluster.Plan.{DesiredNodePlan, plan_spec, plan_name, insert_plan, sort_plans}
use neutree.StaticCluster.NodePlan.{Planner, desired_node, plan_node, plan_nodes}
use neutree.StaticCluster.Upgrade.{apply_ray_recreate_upgrade_plan}
use neutree.StaticCluster.Metrics.Files.{vmagent_config_files}
use neutree.StaticCluster.Upgrade.Targets.{clear_node, without_components, apply_keeps}
use neutree.StaticCluster.Planner.Validity.{plan-eq-build}
use neutree.StaticCluster.Planner.{
  normalize_spec, Components, attach_to, change_node, attach_plan, attach_metrics_config_files,
  normalize_plan, snapshot_plan, finish_plans, build_from_spec, plan,
}

map-insert_plan :
    (p : DesiredNodePlan) (plans : List DesiredNodePlan)
    → map plan_name (insert_plan p plans) ≡ insert_text (plan_name p) (map plan_name plans)
unfolding insert_plan insert_text
map-insert_plan p [] = refl
map-insert_plan p (first ∷ plans) = ground (arith, map-insert_plan p plans)

map-sort_plans :
    (plans : List DesiredNodePlan)
    → map plan_name (sort_plans plans) ≡ sort_texts (map plan_name plans)
unfolding sort_plans sort_texts
map-sort_plans [] = refl
map-sort_plans (p ∷ plans) =
    map-insert_plan p (sort_plans plans) ∙ ap (insert_text (plan_name p)) (map-sort_plans plans)

abbrev node_name : Option StaticNode → String
node_name node = elim node [ none ↦ "" | some n ↦ n.metadata.name ]

node_name-change :
    (change : StaticNodeSpec → Components) (node : Option StaticNode)
    → node_name (change_node change node) ≡ node_name node
node_name-change change none = refl
node_name-change change (some node) = refl

plan_name-attach :
    (files : List NodeComponentConfigFile) (p : DesiredNodePlan)
    → plan_name (attach_plan files p) ≡ plan_name p
unfolding attach_plan
plan_name-attach files p = node_name-change (attach_to files) p.node

plan_name-normalize :
    (planner : Planner) (p : DesiredNodePlan) → plan_name (normalize_plan planner p) ≡ plan_name p
unfolding normalize_plan
plan_name-normalize planner p = node_name-change (normalize_spec planner.digest) p.node

plan_name-snapshot :
    (planner : Planner) (p : DesiredNodePlan) → plan_name (snapshot_plan planner p) ≡ plan_name p
unfolding snapshot_plan
plan_name-snapshot planner p = elim (Option-cases (plan_spec (normalize_plan planner p))) [
  | inl e ↦ rw (e, snapshot_plan) (plan_name-normalize planner p)
  | inr (spec, e) ↦ rw (e, snapshot_plan) (plan_name-normalize planner p)
]

node_name-clear : (node : Option StaticNode) → node_name (clear_node node) ≡ node_name node
node_name-clear none = refl
node_name-clear (some node) = refl

forget-names :
    (plans : List DesiredNodePlan)
    → map plan_name (map without_components plans) ≡ map plan_name plans
forget-names plans =
    map-map_same plan_name plan_name without_components plans (λ p. node_name-clear p.node)

names-apply :
    (cluster : Option StaticNodeCluster) (current_by_name : List (String × StaticNode))
    (plans : List DesiredNodePlan)
    → map plan_name (apply_ray_recreate_upgrade_plan cluster current_by_name plans)
      ≡ map plan_name plans
names-apply cluster current_by_name plans =
    sym (forget-names (apply_ray_recreate_upgrade_plan cluster current_by_name plans))
    ∙ ap (map plan_name) (apply_keeps cluster current_by_name plans)
    ∙ forget-names plans

names-finish :
    (planner : Planner) (cluster : StaticNodeCluster) (current_by_name : List (String × StaticNode))
    (plans : List DesiredNodePlan)
    → map plan_name (finish_plans planner cluster current_by_name plans)
      ≡ sort_texts (map plan_name plans)
unfolding finish_plans attach_metrics_config_files
names-finish planner cluster current_by_name plans =
    let sorted = sort_plans plans in
    let files = vmagent_config_files planner.library cluster sorted in
    let attached = map (attach_plan files) sorted in
    let targets = map (snapshot_plan planner) attached in
    map-map_same plan_name plan_name (normalize_plan planner)
      (apply_ray_recreate_upgrade_plan (some cluster) current_by_name targets)
      (plan_name-normalize planner)
    ∙ names-apply (some cluster) current_by_name targets
    ∙ map-map_same plan_name plan_name (snapshot_plan planner) attached (plan_name-snapshot planner)
    ∙ map-map_same plan_name plan_name (attach_plan files) sorted (plan_name-attach files)
    ∙ map-sort_plans plans

-- The names that are planned, or `names` where planning fails.
abbrev names_or : List String → Result (List DesiredNodePlan) → List String
names_or names (ok plans) = map plan_name plans
names_or names (err e) = names

abbrev loop_names_or : List String → Result (List DesiredNodePlan × ℕ) → List String
loop_names_or names (ok planned) = map plan_name planned.0
loop_names_or names (err e) = names

abbrev name_or : String → Result DesiredNodePlan → String
name_or name (ok p) = plan_name p
name_or name (err e) = name

module _ (planner : Planner) (cluster : StaticNodeCluster) where
  name-plan_node :
      (current : Option StaticNode) (node : StaticNodeClusterNodeSpec)
      → name_or node.name (plan_node planner cluster current node) ≡ node.name
  unfolding plan_node desired_node
  name-plan_node current node = ground arith

  names-plan_nodes :
      (current_by_name : List (String × StaticNode)) (names : List String) (heads : ℕ)
      (nodes : List StaticNodeClusterNodeSpec)
      → loop_names_or
          (map (λ n. n.name) nodes)
          (plan_nodes planner cluster current_by_name names heads nodes)
        ≡ map (λ n. n.name) nodes
  unfolding plan_nodes
  names-plan_nodes current_by_name names heads [] = refl
  names-plan_nodes current_by_name names heads (node ∷ nodes) =
      let rest =
        names-plan_nodes current_by_name (node.name ∷ names)
          (if is_head (normalize_static_node_role node.role) then suc heads else heads) nodes in
      let here = name-plan_node (lookup node.name current_by_name) node in
      ground (arith, here, rest)

names-build :
    (planner : Planner) (cluster : StaticNodeCluster) (spec : StaticNodeClusterSpec)
    (current_nodes : List (Option StaticNode))
    → names_or
        (sort_texts (map (λ n. n.name) spec.nodes))
        (build_from_spec planner cluster spec current_nodes)
      ≡ sort_texts (map (λ n. n.name) spec.nodes)
unfolding build_from_spec
names-build planner cluster spec current_nodes =
    let by_name = static_node_by_name current_nodes in
    let loop = names-plan_nodes planner cluster by_name [] 0 spec.nodes in
    elim (Result-cases (plan_nodes planner cluster by_name [] 0 spec.nodes)) [
      | inl (planned, e) ↦
          let finish = names-finish planner cluster by_name planned.0 in
          ground (arith, loop, e, finish)
      | inr (error, e) ↦ ground (arith, e)
    ]

-- A planned cluster has one plan for each node of its spec, and the plans stand in the order of
-- the nodes' names, whatever the state of the cluster and the step of an upgrade.
pub names-plan :
    (planner : Planner) (cluster : StaticNodeCluster) (spec : StaticNodeClusterSpec)
    (current_nodes : List (Option StaticNode)) (plans : List DesiredNodePlan)
    → cluster.spec ≡ some spec
    → plan planner (some cluster) current_nodes ≡ ok plans
    → map plan_name plans ≡ sort_texts (map (λ n. n.name) spec.nodes)
names-plan planner cluster spec current_nodes plans e planned =
    let built = sym (plan-eq-build planner cluster spec current_nodes e) ∙ planned in
    sym (ap (names_or (sort_texts (map (λ n. n.name) spec.nodes))) built)
    ∙ names-build planner cluster spec current_nodes
