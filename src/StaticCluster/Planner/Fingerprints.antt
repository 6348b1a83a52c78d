-- ===== src/StaticCluster/Planner/Fingerprints.antt =====
-- The fingerprints in the plans.
use mathlib.Core.Path.{subst}
use neutree.Prelude.{
  String, Option, none, some, List, [], ◌≡◌, refl, sym, ◌∙◌, map, not, is_blank, is_empty, nat_eq,
  follow, All, All-map,
}
use neutree.Prelude.Result.{ok, Holds, >>=-Holds}
use neutree.Api.Component.{NodeComponentSpec}
use neutree.Api.StaticNode.{StaticNode, StaticNodeSpec}
use neutree.Api.StaticNodeCluster.{StaticNodeClusterSpec, StaticNodeCluster}
use neutree.StaticCluster.Names.{static_node_by_name}
use neutree.StaticCluster.Plan.{DesiredNodePlan, plan_spec, sort_plans}
use neutree.StaticCluster.Hashes.{hash, with_hash, with_hashes}
use neutree.StaticCluster.NodePlan.{Planner, require, plan_nodes}
use neutree.StaticCluster.Upgrade.{apply_ray_recreate_upgrade_plan}
use neutree.StaticCluster.Planner.Validity.{plan-eq-build}
use neutree.StaticCluster.Planner.{
  change_spec, change_node, normalize_spec, attach_metrics_config_files, spec_components,
  normalize_plan, snapshot_plan, finish_plans, build_from_spec, plan,
}

abbrev CarriesHash : (NodeComponentSpec → String) → NodeComponentSpec → Type 0
CarriesHash digest component = component.config_hash ≡ hash digest component

abbrev pub CarriesHashes : (NodeComponentSpec → String) → DesiredNodePlan → Type 0
CarriesHashes digest p = All (CarriesHash digest) (spec_components (plan_spec p))

component-CarriesHash :
    (digest : NodeComponentSpec → String) (component : NodeComponentSpec)
    → CarriesHash digest (with_hash digest component)
unfolding with_hash hash
component-CarriesHash digest component = refl

spec-CarriesHashes :
    (digest : NodeComponentSpec → String) (spec : Option StaticNodeSpec)
    → All (CarriesHash digest) (spec_components (change_spec (normalize_spec digest) spec))
unfolding with_hashes
spec-CarriesHashes digest none = tt
spec-CarriesHashes digest (some spec) =
    All-map (CarriesHash digest) (with_hash digest) spec.components (component-CarriesHash digest)

node-CarriesHashes :
    (digest : NodeComponentSpec → String) (node : Option StaticNode)
    → All
        (CarriesHash digest)
        (spec_components (follow (change_node (normalize_spec digest) node) (λ n. n.spec)))
node-CarriesHashes digest none = tt
node-CarriesHashes digest (some node) = spec-CarriesHashes digest node.spec

finish-CarriesHashes :
    (planner : Planner) (cluster : StaticNodeCluster) (current_by_name : List (String × StaticNode))
    (plans : List DesiredNodePlan)
    → All (CarriesHashes planner.digest) (finish_plans planner cluster current_by_name plans)
unfolding finish_plans normalize_plan
finish-CarriesHashes planner cluster current_by_name plans =
    All-map (CarriesHashes planner.digest) (normalize_plan planner)
      (apply_ray_recreate_upgrade_plan (some cluster) current_by_name (
        map (snapshot_plan planner)
          (attach_metrics_config_files planner cluster (sort_plans plans))))
      (λ p. node-CarriesHashes planner.digest p.node)

build-CarriesHashes :
    (planner : Planner) (cluster : StaticNodeCluster) (spec : StaticNodeClusterSpec)
    (current_nodes : List (Option StaticNode))
    → Holds
        (All (CarriesHashes planner.digest))
        (build_from_spec planner cluster spec current_nodes)
unfolding build_from_spec
build-CarriesHashes planner cluster spec current_nodes =
    let by_name = static_node_by_name current_nodes in
    let P = All (CarriesHashes planner.digest) in
    >>=-Holds P (require (not (is_blank spec.version)) _) _ (λ u.
      >>=-Holds P (require (not (is_blank spec.image_registry)) _) _ (λ v.
        >>=-Holds P (require (not (is_empty spec.nodes)) _) _ (λ w.
          >>=-Holds P (plan_nodes planner cluster by_name [] 0 spec.nodes) _ (λ planned.
            >>=-Holds P (require (nat_eq planned.1 1) _) _
              (λ x. finish-CarriesHashes planner cluster by_name planned.0)))))

-- Every component that a planned cluster asks a node to run carries the fingerprint of its own
-- content, whatever was staged in its place.
pub plan-CarriesHashes :
    (planner : Planner) (cluster : StaticNodeCluster) (spec : StaticNodeClusterSpec)
    (current_nodes : List (Option StaticNode)) (plans : List DesiredNodePlan)
    → cluster.spec ≡ some spec
    → plan planner (some cluster) current_nodes ≡ ok plans
    → All (CarriesHashes planner.digest) plans
plan-CarriesHashes planner cluster spec current_nodes plans e planned =
    subst (Holds (All (CarriesHashes planner.digest)))
      (sym (plan-eq-build planner cluster spec current_nodes e) ∙ planned)
      (build-CarriesHashes planner cluster spec current_nodes)
