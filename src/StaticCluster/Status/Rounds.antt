-- ===== src/StaticCluster/Status/Rounds.antt =====
-- From one reconcile to the next: the counts of nodes, and the version an upgrade starts from.
use neutree.Prelude.{
  ◌≤◌, true, false, Option, none, some, List, ◌≡◌, refl, ◌≢◌, inl, inr, is_blank, arith, Bool-cases,
  Option-cases, ◌==◌, length, ◌∙◌, nat_eq,
}
use neutree.Prelude.Sorting.{length-sort_texts}
use neutree.Api.StaticNode.{StaticNode}
use neutree.Api.StaticNodeCluster.{
  StaticNodeCluster, StaticNodeClusterSpec, StaticNodeClusterStatus, StaticNodeClusterPhase,
}
use neutree.StaticCluster.Names.{
  static_node_by_name, static_node_cluster_desired_node_names, static_node_cluster_head_name,
}
use neutree.StaticCluster.Plan.{DesiredNodePlan}
use neutree.StaticCluster.Upgrade.{
  UpgradeState, static_node_cluster_upgrade, static_node_cluster_upgrade_step_from_observed_state,
}
use neutree.StaticCluster.Observed.{static_node_cluster_ray_runtime_running_target}
use neutree.StaticCluster.Context.{
  StatusContext, static_node_cluster_plan_by_name, aggregate_stale, initial_status_context,
  build_static_node_cluster_status_context, static_node_cluster_desired_node_name_list,
}
use neutree.StaticCluster.Status.{Listing, require_ray_cluster_ready, aggregate, aggregate_from}
use neutree.StaticCluster.Status.FoldFacts.{aggregate_stale-StaleFacts, aggregate_desired-FoldFacts}

build-upgrade :
    (cluster : Option StaticNodeCluster) (nodes : List (Option StaticNode))
    (plans : List DesiredNodePlan)
    → ((build_static_node_cluster_status_context cluster nodes plans).upgrade
        ≡ static_node_cluster_upgrade cluster nodes plans)
      × ((build_static_node_cluster_status_context cluster nodes plans).ready_nodes
          ≤ (build_static_node_cluster_status_context cluster nodes plans).desired_nodes)
unfolding build_static_node_cluster_status_context static_node_cluster_desired_node_name_list
build-upgrade cluster nodes plans =
    let names = static_node_cluster_desired_node_names cluster in
    let sorted = static_node_cluster_desired_node_name_list cluster in
    let start = initial_status_context cluster nodes plans in
    let stale = aggregate_stale-StaleFacts names nodes start in
    let fold =
      aggregate_desired-FoldFacts (static_node_cluster_head_name cluster)
        (static_node_by_name nodes) (static_node_cluster_plan_by_name plans) sorted
        (aggregate_stale names nodes start) in
    elim (Bool-cases (nat_eq (length names) 0)) [
      | inl e ↦ rw e (ground arith)
      | inr e ↦ rw e (ground (arith, stale, fold, length-sort_texts names))
    ]

-- No more nodes are counted ready than are desired.
pub ready_nodes-le-desired_nodes :
    (cluster : Option StaticNodeCluster) (nodes : List (Option StaticNode))
    (plans : List DesiredNodePlan)
    → (aggregate cluster nodes plans).ready_nodes ≤ (aggregate cluster nodes plans).desired_nodes
unfolding aggregate
ready_nodes-le-desired_nodes cluster nodes plans = ground (arith, build-upgrade cluster nodes plans)

-- The status that a round without an error writes.
abbrev pub reported :
    Option StaticNodeCluster
    → List (Option StaticNode)
    → List DesiredNodePlan
    → Listing
    → StaticNodeClusterStatus
reported cluster nodes plans listing =
    require_ray_cluster_ready cluster listing (aggregate cluster nodes plans)

-- The cluster as the next reconcile reads it.
abbrev pub with_status : StaticNodeCluster → StaticNodeClusterStatus → StaticNodeCluster
with_status cluster status = record cluster { status = some status }

-- Checking Ray does not touch the version.
require_ray-version :
    (cluster : Option StaticNodeCluster) (listing : Listing) (status : StaticNodeClusterStatus)
    → (require_ray_cluster_ready cluster listing status).version ≡ status.version
unfolding require_ray_cluster_ready
require_ray-version cluster listing status = ground arith

upgrade-facts :
    (cluster : StaticNodeCluster) (nodes : List (Option StaticNode)) (plans : List DesiredNodePlan)
    (upgrade : UpgradeState)
    → static_node_cluster_upgrade (some cluster) nodes plans ≡ some upgrade
    → (spec : StaticNodeClusterSpec) × (cluster.spec ≡ some spec)
      × (is_blank upgrade.observed_version ≡ false)
      × ((upgrade.observed_version == spec.version) ≡ false)
unfolding static_node_cluster_upgrade
upgrade-facts cluster nodes plans upgrade e = elim (Option-cases cluster.spec) [
  | inl missing ↦ absurd (ground arith)
  | inr (spec, found) ↦ (spec, found, ground arith, ground arith)
]

aggregate_from-version :
    (cluster : Option StaticNodeCluster) (ctx : StatusContext) (upgrade : UpgradeState)
    → ctx.upgrade ≡ some upgrade
    → (aggregate_from cluster ctx).phase ≢ StaticNodeClusterPhase.ready
    → (aggregate_from cluster ctx).version ≡ upgrade.observed_version
unfolding aggregate_from
aggregate_from-version cluster ctx upgrade e h = ground arith

aggregate-version :
    (cluster : StaticNodeCluster) (nodes : List (Option StaticNode)) (plans : List DesiredNodePlan)
    (upgrade : UpgradeState)
    → static_node_cluster_upgrade (some cluster) nodes plans ≡ some upgrade
    → (aggregate (some cluster) nodes plans).phase ≢ StaticNodeClusterPhase.ready
    → (aggregate (some cluster) nodes plans).version ≡ upgrade.observed_version
aggregate-version cluster nodes plans upgrade e h =
    unfold aggregate in
    aggregate_from-version (some cluster)
      (build_static_node_cluster_status_context (some cluster) nodes plans) upgrade
      ((build-upgrade (some cluster) nodes plans).0 ∙ e) h

upgrade_of :
    (cluster : StaticNodeCluster) (spec : StaticNodeClusterSpec) (status : StaticNodeClusterStatus)
    (nodes : List (Option StaticNode)) (plans : List DesiredNodePlan)
    → cluster.spec ≡ some spec
    → is_blank status.version ≡ false
    → (status.version == spec.version) ≡ false
    → (next : UpgradeState) × (static_node_cluster_upgrade
          (some (with_status cluster status))
          nodes
          plans
        ≡ some next)
      × (next.observed_version ≡ status.version)
unfolding static_node_cluster_upgrade
upgrade_of cluster spec status nodes plans h old differ = (
  record {
    observed_version = status.version;
    step =
        static_node_cluster_upgrade_step_from_observed_state (some (with_status cluster status))
          nodes plans;
    target_runtime_observed =
        static_node_cluster_ray_runtime_running_target (some (with_status cluster status)) nodes
          plans;
  },
  ground arith,
  refl,
)

-- During an upgrade, while the aggregate is not Ready, the status that a round without an error
-- reports keeps the version that the upgrade starts from, so that the next reconcile from that
-- status, whatever it observes, is in an upgrade from that version.
pub upgrade_persists :
    (cluster : StaticNodeCluster) (nodes nodes' : List (Option StaticNode))
    (plans plans' : List DesiredNodePlan) (listing : Listing) (upgrade : UpgradeState)
    → static_node_cluster_upgrade (some cluster) nodes plans ≡ some upgrade
    → (aggregate (some cluster) nodes plans).phase ≢ StaticNodeClusterPhase.ready
    → (next : UpgradeState) × (static_node_cluster_upgrade
          (some (with_status cluster (reported (some cluster) nodes plans listing)))
          nodes'
          plans'
        ≡ some next)
      × (next.observed_version ≡ upgrade.observed_version)
upgrade_persists cluster nodes nodes' plans plans' listing upgrade e h =
    let (spec, has_spec, old, differ) = upgrade-facts cluster nodes plans upgrade e in
    let version =
      require_ray-version (some cluster) listing (aggregate (some cluster) nodes plans)
      ∙ aggregate-version cluster nodes plans upgrade e h in
    let (next, runs, from) =
      upgrade_of cluster spec (reported (some cluster) nodes plans listing) nodes' plans' has_spec
        (rw version old) (rw version differ) in
    (next, runs, from ∙ version)

aggregate_from-no_version :
    (cluster : Option StaticNodeCluster) (ctx : StatusContext)
    → ctx.upgrade ≡ none
    → (aggregate_from cluster ctx).phase ≢ StaticNodeClusterPhase.ready
    → (aggregate_from cluster ctx).version ≡ ""
unfolding aggregate_from
aggregate_from-no_version cluster ctx e h = ground arith

aggregate-no_version :
    (cluster : StaticNodeCluster) (nodes : List (Option StaticNode)) (plans : List DesiredNodePlan)
    → static_node_cluster_upgrade (some cluster) nodes plans ≡ none
    → (aggregate (some cluster) nodes plans).phase ≢ StaticNodeClusterPhase.ready
    → (aggregate (some cluster) nodes plans).version ≡ ""
aggregate-no_version cluster nodes plans e h =
    unfold aggregate in
    aggregate_from-no_version (some cluster)
      (build_static_node_cluster_status_context (some cluster) nodes plans)
      ((build-upgrade (some cluster) nodes plans).0 ∙ e) h

-- The cluster as the next reconcile reads it, its spec changed in between.
abbrev pub moved_to :
    StaticNodeCluster → StaticNodeClusterStatus → StaticNodeClusterSpec → StaticNodeCluster
moved_to cluster status spec = record cluster { spec = some spec; status = some status }

no_upgrade_of :
    (cluster : StaticNodeCluster) (spec : StaticNodeClusterSpec) (status : StaticNodeClusterStatus)
    (nodes : List (Option StaticNode)) (plans : List DesiredNodePlan)
    → status.version ≡ ""
    → static_node_cluster_upgrade (some (moved_to cluster status spec)) nodes plans ≡ none
unfolding static_node_cluster_upgrade
no_upgrade_of cluster spec status nodes plans e =
    let blank : is_blank status.version ≡ true = rw e in ground (arith, blank)

-- A status that is written outside an upgrade while the aggregate is not Ready names no version:
-- whatever version the spec asks for afterwards and whatever is observed, the next reconcile is in
-- no upgrade and stages nothing.
pub unready-no_upgrade :
    (cluster : StaticNodeCluster) (nodes nodes' : List (Option StaticNode))
    (plans plans' : List DesiredNodePlan) (listing : Listing) (spec : StaticNodeClusterSpec)
    → static_node_cluster_upgrade (some cluster) nodes plans ≡ none
    → (aggregate (some cluster) nodes plans).phase ≢ StaticNodeClusterPhase.ready
    → static_node_cluster_upgrade
        (some (moved_to cluster (reported (some cluster) nodes plans listing) spec))
        nodes'
        plans'
      ≡ none
unready-no_upgrade cluster nodes nodes' plans plans' listing spec e h =
    let version =
      require_ray-version (some cluster) listing (aggregate (some cluster) nodes plans)
      ∙ aggregate-no_version cluster nodes plans e h in
    no_upgrade_of cluster spec (reported (some cluster) nodes plans listing) nodes' plans' version
