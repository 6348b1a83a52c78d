-- ===== src/Examples/Plans.antt =====
-- The plans of the cluster, and the texts that go into them.
use neutree.Prelude.{
  true, not, ◌&&◌, Option, none, some, List, [], ◌∷◌, ◌≡◌, refl, map, All, contains, is_blank,
  sort_texts, arith, ◌∙◌,
}
use neutree.Prelude.Result.{Result, ok, err}
use neutree.Api.StaticNode.{StaticNode, cpu_static_node_accelerator_status}
use neutree.StaticCluster.Plan.{DesiredNodePlan, plan_name}
use neutree.StaticCluster.NodePlan.{Planner, plan_node}
use neutree.Prelude.Dict.{lookup}
use neutree.StaticCluster.Names.{static_node_by_name, normalize_static_node_role}
use neutree.Strings.{join}
use neutree.StaticCluster.Metrics.{MetricsLibrary}
use neutree.StaticCluster.Hashes.{with_hashes, with_hashes_idem}
use neutree.StaticCluster.RayRuntime.{build_node_warm_spec}
use neutree.StaticCluster.RayRuntime.Warm.{warm_refs, is_distinct, build_node_warm_spec-images}
use neutree.StaticCluster.Planner.{plan}
use neutree.StaticCluster.Planner.Validity.{is_ok, spec_is_valid, plan-ok_iff}
use neutree.StaticCluster.Planner.Shape.{names-plan}
use neutree.StaticCluster.Planner.Fingerprints.{CarriesHashes, plan-CarriesHashes}
use neutree.Image.{rewrite_image_ref}
use neutree.Image.Rewrite.{rewrite_image_ref_idem}
use neutree.Examples.Data.{
  cluster_from, cluster_spec_v2, status_of, node_of, spec_of, head_components, worker_components,
}
use neutree.Api.StaticNode.{head, worker, StaticNodeStatus}

abbrev with_cpu : StaticNodeStatus
with_cpu =
    let status = status_of [] in
    record status { accelerator = some cpu_static_node_accelerator_status }

-- Both nodes have told their accelerator.
abbrev current_nodes : List (Option StaticNode)
current_nodes =
    some (node_of "h" (spec_of "10.0.0.1" head []) (some with_cpu))
    ∷ some (node_of "w" (spec_of "10.0.0.2" worker []) (some with_cpu))
    ∷ []

-- Every text is a URL of one host, and targets are written as their addresses.
abbrev library : MetricsLibrary
library = record {
  parse_url = λ text. some ("http", text);
  quote = λ text. text;
  marshal_indent = λ targets. join " " (map (λ t. join "," t.targets) targets);
}

abbrev pub planner : Planner
planner = record {
  accelerator_profile_provider = none;
  digest = λ component. component.image;
  metrics_remote_write_url = "http://metrics:8480/insert";
  library = library;
}

plan-ok_iff_example :
    is_ok (plan planner (some (cluster_from "v2")) current_nodes)
    ≡ spec_is_valid planner (cluster_from "v2") cluster_spec_v2 current_nodes
plan-ok_iff_example = plan-ok_iff planner (cluster_from "v2") cluster_spec_v2 current_nodes refl

value_of :
    (r : Result (List DesiredNodePlan)) → is_ok r ≡ true → (p : List DesiredNodePlan) × (r ≡ ok p)
value_of (ok p) e = (p, refl)
value_of (err error) e = absurd (ground (arith, e))

spec_valid : spec_is_valid planner (cluster_from "v2") cluster_spec_v2 current_nodes ≡ true
unfolding plan_node lookup static_node_by_name cpu_static_node_accelerator_status
    normalize_static_node_role
spec_valid = refl

planned :
    (plans : List DesiredNodePlan) × (plan planner (some (cluster_from "v2")) current_nodes
      ≡ ok plans)
planned =
    value_of (plan planner (some (cluster_from "v2")) current_nodes)
      (plan-ok_iff planner (cluster_from "v2") cluster_spec_v2 current_nodes refl ∙ spec_valid)

names-plan_example : map plan_name planned.0 ≡ sort_texts ("w" ∷ "h" ∷ [])
names-plan_example =
    names-plan planner (cluster_from "v2") cluster_spec_v2 current_nodes planned.0 refl planned.1

plan-CarriesHashes_example : All (CarriesHashes (λ component. component.image)) planned.0
plan-CarriesHashes_example =
    plan-CarriesHashes planner (cluster_from "v2") cluster_spec_v2 current_nodes planned.0 refl
      planned.1

build_node_warm_spec-images_example :
    (contains (warm_refs (build_node_warm_spec (head_components "ray:v2"))) "ray:v2" ≡ (
      not (is_blank "ray:v2") && contains (map (λ c. c.image) (head_components "ray:v2")) "ray:v2"))
    × (is_distinct (warm_refs (build_node_warm_spec (head_components "ray:v2"))) ≡ true)
build_node_warm_spec-images_example =
    build_node_warm_spec-images (head_components "ray:v2") "ray:v2"

with_hashes_idem_example :
    with_hashes
      (λ component. component.image)
      (with_hashes (λ component. component.image) (worker_components "ray:v2"))
    ≡ with_hashes (λ component. component.image) (worker_components "ray:v2")
with_hashes_idem_example =
    with_hashes_idem (λ component. component.image) (worker_components "ray:v2")

rewrite_image_ref_idem_example :
    rewrite_image_ref "registry.local/neutree"
      (rewrite_image_ref "registry.local/neutree" "docker.io/victoriametrics/vmagent:v1")
    ≡ rewrite_image_ref "registry.local/neutree" "docker.io/victoriametrics/vmagent:v1"
rewrite_image_ref_idem_example =
    rewrite_image_ref_idem "registry.local/neutree" "docker.io/victoriametrics/vmagent:v1"
