-- ===== src/StaticCluster/Metrics/Components/Names.antt =====
-- The names of the components that are planned for a node.
use neutree.Prelude.{
  String, Bool, true, false, not, ◌&&◌, Option, some, List, [], ◌∷◌, ◌++◌, ◌≡◌, refl, map, ap, ◌∙◌,
  Bool-cases, Option-cases, inl, inr, if◌then◌else◌,
}
use neutree.Api.Accelerator.{AcceleratorProfile, AcceleratorExporterProfile}
use neutree.Api.Component.{NodeComponentSpec}
use neutree.Api.StaticNode.{StaticNode, StaticNodeRole}
use neutree.Api.StaticNodeCluster.{StaticNodeCluster}
use neutree.StaticCluster.Names.{is_head}
use neutree.StaticCluster.RayRuntime.{build_ray_component}
use neutree.StaticCluster.RayRuntime.Warm.{is_distinct}
use neutree.StaticCluster.NodePlan.{Planner, build_node_components}
use neutree.StaticCluster.Metrics.{
  is_managed, accelerator_exporter_mode, accelerator_exporter_profile,
  valid_accelerator_exporter_profile, build_node_exporter_component,
  build_accelerator_exporter_component,
}
use neutree.StaticCluster.Metrics.Components.{
  is_http_or_https_url, managed_exporter, build_node_agent_component, build_vmagent_component,
  build_metrics_components,
}

abbrev pub names : List NodeComponentSpec → List String
names = map (λ c. c.name)

-- The exporter that is installed, for a profile that has one or none.
exporter_if :
    (test : Bool) (cluster : Option StaticNodeCluster) (exporter : AcceleratorExporterProfile)
    → names (if test then build_accelerator_exporter_component cluster exporter ∷ [] else [])
      ≡ (if test then "accelerator-exporter" ∷ [] else [])
unfolding build_accelerator_exporter_component
exporter_if true cluster exporter = refl
exporter_if false cluster exporter = refl

managed-names :
    (cluster : Option StaticNodeCluster) (profile : Option AcceleratorProfile)
    → (test : Bool) × (names (managed_exporter cluster profile)
        ≡ (if test then "accelerator-exporter" ∷ [] else []))
unfolding managed_exporter
managed-names cluster profile = elim (Option-cases (accelerator_exporter_profile profile)) [
  | inl e ↦ (false, rw (e, managed_exporter) refl)
  | inr (exporter, e) ↦ (
    is_managed (accelerator_exporter_mode cluster)
        && valid_accelerator_exporter_profile (some exporter),
    rw (e, managed_exporter) (exporter_if _ cluster exporter),
  )
]

names-append : (xs ys : List NodeComponentSpec) → names (xs ++ ys) ≡ names xs ++ names ys
names-append [] ys = refl
names-append (x ∷ xs) ys = ap (λ ns. x.name ∷ ns) (names-append xs ys)

-- The names, by what is decided: whether metrics are written, whether an exporter is installed,
-- and whether the node is a head.
abbrev names_by : Bool → Bool → Bool → List String
names_by writes installs heads =
    (if heads then "ray-head" else "ray-worker")
    ∷ (if not writes
        then []
        else "node-exporter"
          ∷ ((if installs then "accelerator-exporter" ∷ [] else [])
              ++ ("neutree-node-agent" ∷ (if heads then "vmagent" ∷ [] else []))))

names_by-is_distinct :
    (writes installs heads : Bool) → is_distinct (names_by writes installs heads) ≡ true
names_by-is_distinct true true true = refl
names_by-is_distinct true true false = refl
names_by-is_distinct true false true = refl
names_by-is_distinct true false false = refl
names_by-is_distinct false installs true = refl
names_by-is_distinct false installs false = refl

module _ (planner : Planner) (cluster : StaticNodeCluster) (node : StaticNode)
    (role : StaticNodeRole) (profile : Option AcceleratorProfile) where
  abbrev agents : Bool → List NodeComponentSpec
  agents heads =
      build_node_agent_component (some cluster) node profile
      ∷ (if heads
          then build_vmagent_component (some cluster) planner.metrics_remote_write_url ∷ []
          else [])

  agent-names :
      (heads : Bool)
      → names (agents heads) ≡ "neutree-node-agent" ∷ (if heads then "vmagent" ∷ [] else [])
  unfolding build_node_agent_component build_vmagent_component
  agent-names true = refl
  agent-names false = refl

  metrics-names :
      names (
        build_metrics_components planner.library.parse_url
          (some cluster)
          node
          role
          profile
          planner.metrics_remote_write_url)
      ≡ (if not (is_http_or_https_url planner.library.parse_url planner.metrics_remote_write_url)
          then []
          else "node-exporter"
            ∷ ((if (managed-names (some cluster) profile).0
                  then "accelerator-exporter" ∷ []
                  else [])
                ++ ("neutree-node-agent" ∷ (if is_head role then "vmagent" ∷ [] else []))))
  unfolding build_metrics_components build_node_exporter_component
  metrics-names =
      elim (Bool-cases
        (is_http_or_https_url planner.library.parse_url planner.metrics_remote_write_url)) [
          | inl e ↦
              rw (e, build_metrics_components)
                (ap (λ ns. "node-exporter" ∷ ns)
                  (names-append (managed_exporter (some cluster) profile) (agents (is_head role))
                    ∙ cc ((managed-names (some cluster) profile).1, agent-names (is_head role))))
          | inr e ↦ rw (e, build_metrics_components) refl
        ]

  -- No two of the components that are planned for a node have one name, so that none of its
  -- containers is taken for another's.
  pub build_node_components-is_distinct :
      is_distinct (names (build_node_components planner cluster node role profile)) ≡ true
  unfolding build_node_components build_ray_component
  build_node_components-is_distinct = rw metrics-names (names_by-is_distinct _ _ (is_head role))
