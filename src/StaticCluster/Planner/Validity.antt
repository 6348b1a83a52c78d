-- ===== src/StaticCluster/Planner/Validity.antt =====
-- Which cluster specs are planned.
use neutree.Prelude.{
  ℕ, suc, ◌+◌, String, Bool, true, false, not, ◌&&◌, Option, some, List, [], ◌∷◌, ◌≡◌, refl,
  contains, is_blank, is_empty, follow, ◌||◌, ◌==◌, none, nat_eq, all, arith, ap, if◌then◌else◌,
}
use neutree.Prelude.Dict.{lookup}
use neutree.Prelude.Result.{Result, ok, err}
use neutree.Api.Accelerator.{AcceleratorProfile}
use neutree.Api.StaticNode.{
  StaticNode, StaticNodeAcceleratorStatus, static_node_accelerator_type_cpu,
}
use neutree.Api.StaticNodeCluster.{
  StaticNodeClusterNodeSpec, StaticNodeClusterSpec, StaticNodeCluster,
}
use neutree.StaticCluster.Names.{normalize_static_node_role, static_node_by_name, is_head}
use neutree.StaticCluster.Plan.{DesiredNodePlan}
use neutree.StaticCluster.NodePlan.{
  Planner, plan_node, plan_nodes, runtime_profile, current_static_node_accelerator_status,
}
use neutree.StaticCluster.Planner.{plan, build_from_spec}

-- Every node has a name and an address, and no name is one of `names` or stands twice.
abbrev pub nodes_are_named : List String → List StaticNodeClusterNodeSpec → Bool
nodes_are_named names [] = true
nodes_are_named names (node ∷ nodes) =
    not (is_blank node.name)
    && not (is_blank node.ip)
    && not (contains names node.name)
    && nodes_are_named (node.name ∷ names) nodes

abbrev pub count_heads : List StaticNodeClusterNodeSpec → ℕ
count_heads [] = 0
count_heads (node ∷ nodes) =
    if is_head (normalize_static_node_role node.role)
    then suc (count_heads nodes)
    else count_heads nodes

abbrev pub is_ok {ℓ} : {A : Type ℓ} → Result A → Bool
is_ok (ok a) = true
is_ok (err e) = false

-- What a node reports of its accelerator.
abbrev pub known_accelerator : Option StaticNode → Option StaticNodeAcceleratorStatus
known_accelerator node = follow (follow node (λ n. n.status)) (λ s. s.accelerator)

abbrev pub answers : Option (String → Result (Option AcceleratorProfile)) → String → Bool
answers none type = false
answers (some provider) type = is_ok (provider type)

-- An accelerator that has a type, and is not a CPU, needs a provider that answers for that type.
abbrev pub profile_is_known :
    Option (String → Result (Option AcceleratorProfile)) → Option StaticNodeAcceleratorStatus → Bool
profile_is_known provider none = true
profile_is_known provider (some accelerator) =
    is_blank accelerator.type
    || accelerator.type == static_node_accelerator_type_cpu
    || answers provider accelerator.type

-- The heads that the loop has counted, or `n` where it fails.
abbrev heads_or : ℕ → Result (List DesiredNodePlan × ℕ) → ℕ
heads_or n (ok planned) = planned.1
heads_or n (err e) = n

module _ (planner : Planner) (cluster : StaticNodeCluster)
    (current_by_name : List (String × StaticNode)) where
  -- The profile of every node whose accelerator is known can be had.
  abbrev pub profiles_are_known : List StaticNodeClusterNodeSpec → Bool
  profiles_are_known = all (λ node.
      profile_is_known planner.accelerator_profile_provider
        (known_accelerator (lookup node.name current_by_name)))

  plan_node-is_ok :
      (current : Option StaticNode) (node : StaticNodeClusterNodeSpec)
      → is_ok (plan_node planner cluster current node)
        ≡ profile_is_known planner.accelerator_profile_provider (known_accelerator current)
  unfolding plan_node runtime_profile current_static_node_accelerator_status
  plan_node-is_ok current node = ground arith

  plan_nodes-is_ok :
      (names : List String) (heads : ℕ) (nodes : List StaticNodeClusterNodeSpec)
      → is_ok (plan_nodes planner cluster current_by_name names heads nodes)
        ≡ (nodes_are_named names nodes && profiles_are_known nodes)
  unfolding plan_nodes
  plan_nodes-is_ok names heads [] = refl
  plan_nodes-is_ok names heads (node ∷ nodes) =
      let rest =
        plan_nodes-is_ok (node.name ∷ names)
          (if is_head (normalize_static_node_role node.role) then suc heads else heads) nodes in
      let here = plan_node-is_ok (lookup node.name current_by_name) node in
      ground (arith, rest, here)

  plan_nodes-heads :
      (names : List String) (heads : ℕ) (nodes : List StaticNodeClusterNodeSpec)
      → heads_or
          (heads + count_heads nodes)
          (plan_nodes planner cluster current_by_name names heads nodes)
        ≡ heads + count_heads nodes
  unfolding plan_nodes
  plan_nodes-heads names heads [] = omega arith
  plan_nodes-heads names heads (node ∷ nodes) =
      let rest =
        plan_nodes-heads (node.name ∷ names)
          (if is_head (normalize_static_node_role node.role) then suc heads else heads) nodes in
      ground (arith, rest)

-- What a spec must have to be planned: a version, a registry, nodes with names and addresses, no
-- name twice, exactly one head, and profiles for the accelerators that are known.
abbrev pub spec_is_valid :
    Planner → StaticNodeCluster → StaticNodeClusterSpec → List (Option StaticNode) → Bool
spec_is_valid planner cluster spec current_nodes =
    not (is_blank spec.version)
    && not (is_blank spec.image_registry)
    && not (is_empty spec.nodes)
    && nodes_are_named [] spec.nodes
    && profiles_are_known planner cluster (static_node_by_name current_nodes) spec.nodes
    && nat_eq (count_heads spec.nodes) 1

build-is_ok :
    (planner : Planner) (cluster : StaticNodeCluster) (spec : StaticNodeClusterSpec)
    (current_nodes : List (Option StaticNode))
    → is_ok (build_from_spec planner cluster spec current_nodes)
      ≡ spec_is_valid planner cluster spec current_nodes
unfolding build_from_spec
build-is_ok planner cluster spec current_nodes =
    let planned =
      plan_nodes-is_ok planner cluster (static_node_by_name current_nodes) [] 0 spec.nodes in
    let heads =
      plan_nodes-heads planner cluster (static_node_by_name current_nodes) [] 0 spec.nodes in
    ground (arith, planned, heads)

pub plan-eq-build :
    (planner : Planner) (cluster : StaticNodeCluster) (spec : StaticNodeClusterSpec)
    (current_nodes : List (Option StaticNode))
    → cluster.spec ≡ some spec
    → plan planner (some cluster) current_nodes ≡ build_from_spec planner cluster spec current_nodes
unfolding plan
plan-eq-build planner cluster spec current_nodes e = simp e

-- A cluster with a spec is planned exactly when the spec has a version, a registry and nodes, every
-- node a name and an address, no name twice, exactly one head, and for each accelerator that is
-- known with a type other than the CPU a provider that answers for its type.
pub plan-ok_iff :
    (planner : Planner) (cluster : StaticNodeCluster) (spec : StaticNodeClusterSpec)
    (current_nodes : List (Option StaticNode))
    → cluster.spec ≡ some spec
    → is_ok (plan planner (some cluster) current_nodes)
      ≡ spec_is_valid planner cluster spec current_nodes
plan-ok_iff planner cluster spec current_nodes e =
    rw (← build-is_ok planner cluster spec current_nodes)
      (ap is_ok (plan-eq-build planner cluster spec current_nodes e))
