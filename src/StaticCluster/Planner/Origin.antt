-- ===== src/StaticCluster/Planner/Origin.antt =====
-- Whose nodes are planned: the id, the workspace and the cluster of the nodes in the plans.
use mathlib.Core.Path.{subst}
use neutree.Prelude.{
  ℕ, String, Option, none, some, List, [], ◌∷◌, ◌≡◌, refl, ap, arith, sym, ◌∙◌, map, not, is_blank,
  is_empty, contains, nat_eq, All, All-keep_on_map, All-of_map, text_le, Bool-cases, inl, inr,
  Option-cases, suc, if◌then◌else◌,
}
use neutree.Prelude.Dict.{lookup}
use neutree.Prelude.Result.{ok, Holds, >>=-Holds, >>=-Holds_of}
use neutree.Api.StaticNode.{StaticNode, StaticNodeSpec}
use neutree.Api.StaticNodeCluster.{
  StaticNodeClusterSpec, StaticNodeClusterNodeSpec, StaticNodeCluster,
}
use neutree.StaticCluster.Names.{static_node_by_name, normalize_static_node_role, is_head}
use neutree.StaticCluster.Plan.{DesiredNodePlan, plan_spec, plan_name, insert_plan, sort_plans}
use neutree.StaticCluster.NodePlan.{
  Planner, require, desired_node, current_static_node_accelerator_status, runtime_profile,
  plan_node, plan_nodes,
}
use neutree.StaticCluster.Upgrade.{apply_ray_recreate_upgrade_plan}
use neutree.StaticCluster.Metrics.Files.{vmagent_config_files}
use neutree.StaticCluster.Upgrade.Targets.{clear_node, without_components, apply_keeps}
use neutree.StaticCluster.Planner.{
  Components, change_node, attach_plan, attach_metrics_config_files, normalize_plan, snapshot_plan,
  finish_plans, build_from_spec, plan,
}

abbrev spec_origin : Option StaticNodeSpec → Option String
spec_origin none = none
spec_origin (some spec) = some spec.cluster

-- Where the node of a plan would be stored, and for which cluster.
abbrev pub origin : Option StaticNode → Option (ℕ × (String × Option String))
origin none = none
origin (some node) = some (node.id, (node.metadata.workspace, spec_origin node.spec))

-- The plan is of a new node of this cluster.
abbrev pub IsOwn : StaticNodeCluster → DesiredNodePlan → Type 0
IsOwn cluster p = origin p.node ≡ some (0, (cluster.metadata.workspace, some cluster.metadata.name))

-- The same of a node, part by part.
pub record OwnNode (cluster : StaticNodeCluster) (node : StaticNode) : Type 0 where
  pub is_new : node.id ≡ 0
  pub is_here : node.metadata.workspace ≡ cluster.metadata.workspace
  pub spec : StaticNodeSpec
  pub has_spec : node.spec ≡ some spec
  pub owner : spec.cluster ≡ cluster.metadata.name

abbrev Origin : Type 0
Origin = Option (ℕ × (String × Option String))

abbrev id_of : Origin → ℕ
id_of none = 0
id_of (some found) = found.0

abbrev workspace_of : Origin → String
workspace_of none = ""
workspace_of (some found) = found.1.0

abbrev owner_of : Origin → Option String
owner_of none = none
owner_of (some found) = found.1.1

pub IsOwn-OwnNode :
    (cluster : StaticNodeCluster) (node : StaticNode)
    → origin (some node) ≡ some (0, (cluster.metadata.workspace, some cluster.metadata.name))
    → OwnNode cluster node
IsOwn-OwnNode cluster node h =
    let owned : spec_origin node.spec ≡ some cluster.metadata.name = ap owner_of h in
    elim (Option-cases node.spec) [
      | inl e ↦ absurd (ground (arith, owned, e))
      | inr (spec, e) ↦ record {
        is_new = ap id_of h;
        is_here = ap workspace_of h;
        spec = spec;
        has_spec = e;
        owner = ground (arith, owned, e);
      }
    ]

origin-change :
    (change : StaticNodeSpec → Components) (node : Option StaticNode)
    → origin (change_node change node) ≡ origin node
origin-change change none = refl
origin-change change (some node) = elim (Option-cases node.spec) [
  | inl e ↦ rw e refl
  | inr (spec, e) ↦ rw e refl
]

origin-clear : (node : Option StaticNode) → origin (clear_node node) ≡ origin node
origin-clear none = refl
origin-clear (some node) = elim (Option-cases node.spec) [
  | inl e ↦ rw e refl
  | inr (spec, e) ↦ rw e refl
]

module _ (planner : Planner) (cluster : StaticNodeCluster) where
  abbrev Own : DesiredNodePlan → Type 0
  Own = IsOwn cluster

  insert-IsOwn :
      (p : DesiredNodePlan) (plans : List DesiredNodePlan)
      → Own p
      → All Own plans
      → All Own (insert_plan p plans)
  unfolding insert_plan
  insert-IsOwn p [] h a = (h, tt)
  insert-IsOwn p (first ∷ plans) h a = elim (Bool-cases (text_le (plan_name p) (plan_name first))) [
    | inl e ↦ rw e (h, a)
    | inr e ↦ rw e (a.0, insert-IsOwn p plans h a.1)
  ]

  sort-IsOwn : (plans : List DesiredNodePlan) → All Own plans → All Own (sort_plans plans)
  unfolding sort_plans
  sort-IsOwn [] a = tt
  sort-IsOwn (p ∷ plans) a = insert-IsOwn p (sort_plans plans) a.0 (sort-IsOwn plans a.1)

  normalize-IsOwn : (p : DesiredNodePlan) → Own p → Own (normalize_plan planner p)
  unfolding normalize_plan
  normalize-IsOwn p h = origin-change _ p.node ∙ h

  snapshot-IsOwn : (p : DesiredNodePlan) → Own p → Own (snapshot_plan planner p)
  unfolding snapshot_plan
  snapshot-IsOwn p h = elim (Option-cases (plan_spec (normalize_plan planner p))) [
    | inl e ↦ rw (e, snapshot_plan) (normalize-IsOwn p h)
    | inr (spec, e) ↦ rw (e, snapshot_plan) (normalize-IsOwn p h)
  ]

  apply-IsOwn :
      (current_by_name : List (String × StaticNode)) (plans : List DesiredNodePlan)
      → All Own plans
      → All Own (apply_ray_recreate_upgrade_plan (some cluster) current_by_name plans)
  apply-IsOwn current_by_name plans a =
      All-of_map Own without_components
        (apply_ray_recreate_upgrade_plan (some cluster) current_by_name plans)
        (λ p h. sym (origin-clear p.node) ∙ h)
        (subst (All Own) (sym (apply_keeps (some cluster) current_by_name plans))
          (All-keep_on_map Own without_components plans (λ p h. origin-clear p.node ∙ h) a))

  finish-IsOwn :
      (current_by_name : List (String × StaticNode)) (plans : List DesiredNodePlan)
      → All Own plans
      → All Own (finish_plans planner cluster current_by_name plans)
  unfolding finish_plans attach_metrics_config_files attach_plan
  finish-IsOwn current_by_name plans a =
      let sorted = sort_plans plans in
      let files = vmagent_config_files planner.library cluster sorted in
      let attached = map (attach_plan files) sorted in
      let targets = map (snapshot_plan planner) attached in
      All-keep_on_map Own (normalize_plan planner)
        (apply_ray_recreate_upgrade_plan (some cluster) current_by_name targets) normalize-IsOwn
        (apply-IsOwn current_by_name targets (
          All-keep_on_map Own (snapshot_plan planner) attached snapshot-IsOwn (
            All-keep_on_map Own (attach_plan files) sorted (λ p h. origin-change _ p.node ∙ h)
              (sort-IsOwn plans a))))

  plan_node-IsOwn :
      (current : Option StaticNode) (node_spec : StaticNodeClusterNodeSpec)
      → Holds Own (plan_node planner cluster current node_spec)
  unfolding plan_node desired_node
  plan_node-IsOwn current node_spec =
      elim (Option-cases (current_static_node_accelerator_status current)) [
        | inl e ↦ rw (e, Holds) refl
        | inr (accelerator, e) ↦
            rw (e, Holds) (>>=-Holds Own (runtime_profile planner accelerator) _ (λ profile. refl))
      ]

  plan_nodes-IsOwn :
      (current_by_name : List (String × StaticNode)) (names : List String) (heads : ℕ)
      (nodes : List StaticNodeClusterNodeSpec)
      → Holds
          (λ planned. All Own planned.0)
          (plan_nodes planner cluster current_by_name names heads nodes)
  unfolding plan_nodes
  plan_nodes-IsOwn current_by_name names heads [] = tt
  plan_nodes-IsOwn current_by_name names heads (node ∷ nodes) =
      let P = λ (planned : List DesiredNodePlan × ℕ). All Own planned.0 in
      let next_heads =
        if is_head (normalize_static_node_role node.role) then suc heads else heads in
      >>=-Holds P (require (not (is_blank node.name)) _) _ (λ u.
        >>=-Holds P (require (not (is_blank node.ip)) _) _ (λ v.
          >>=-Holds P (require (not (contains names node.name)) _) _ (λ w.
            >>=-Holds_of Own P (plan_node planner cluster (lookup node.name current_by_name) node) _
              (plan_node-IsOwn (lookup node.name current_by_name) node)
              (λ p own.
                >>=-Holds_of P P
                  (plan_nodes planner cluster current_by_name (node.name ∷ names) next_heads nodes)
                  (λ rest. ok (p ∷ rest.0, rest.1))
                  (plan_nodes-IsOwn current_by_name (node.name ∷ names) next_heads nodes)
                  (λ rest owns. (own, owns))))))

  build-IsOwn :
      (spec : StaticNodeClusterSpec) (current_nodes : List (Option StaticNode))
      → Holds (All Own) (build_from_spec planner cluster spec current_nodes)
  unfolding build_from_spec
  build-IsOwn spec current_nodes =
      let by_name = static_node_by_name current_nodes in
      >>=-Holds (All Own) (require (not (is_blank spec.version)) _) _ (λ u.
        >>=-Holds (All Own) (require (not (is_blank spec.image_registry)) _) _ (λ v.
          >>=-Holds (All Own) (require (not (is_empty spec.nodes)) _) _ (λ w.
            >>=-Holds_of (λ planned. All Own planned.0) (All Own)
              (plan_nodes planner cluster by_name [] 0 spec.nodes) _
              (plan_nodes-IsOwn by_name [] 0 spec.nodes)
              (λ planned owns.
                >>=-Holds (All Own) (require (nat_eq planned.1 1) _) _
                  (λ x. finish-IsOwn by_name planned.0 owns)))))

  -- Every planned node is a new one of the cluster's workspace, and carries the cluster's name.
  pub plan-IsOwn :
      (current_nodes : List (Option StaticNode))
      → Holds (All Own) (plan planner (some cluster) current_nodes)
  unfolding plan
  plan-IsOwn current_nodes = elim (Option-cases cluster.spec) [
    | inl e ↦ rw e tt
    | inr (spec, e) ↦ rw e (build-IsOwn spec current_nodes)
  ]
