-- ===== src/StaticCluster/Upgrade/Steps.antt =====
-- What the step of an upgrade says of the observed nodes.
use mathlib.Core.List.{Memᴰ}
use neutree.Prelude.{
  String, Bool, true, Option, none, some, List, [], ◌∷◌, ◌≡◌, refl, ◌⊎◌, inl, inr, contains, All,
  all-All, Bool-cases, arith, ◌==◌, eq_iff,
}
use neutree.Prelude.Dict.{lookup, lookup-insert}
use neutree.Api.StaticNode.{StaticNode, StaticNodeStatus}
use neutree.Api.StaticNodeCluster.{StaticNodeCluster}
use neutree.StaticCluster.Names.{static_node_cluster_worker_names}
use neutree.StaticCluster.Plan.{DesiredNodePlan}
use neutree.StaticCluster.Observed.{
  ray_component_stopped, stopped_workers_step, stopped_workers_from, is_true,
  static_node_cluster_workers_stopped, static_node_cluster_worker_target_spec_issued,
  static_node_cluster_head_ray_running_target,
}
use neutree.StaticCluster.Upgrade.{
  UpgradeStep, starting_head, starting_workers,
  static_node_cluster_upgrade_step_from_observed_state,
}

-- A node of that name is observed with its Ray worker stopped.
pub record WorkerStopped (nodes : List (Option StaticNode)) (name : String) : Type 0 where
  pub node : StaticNode
  pub status : StaticNodeStatus
  pub listed : Memᴰ (some node) nodes
  pub named : node.metadata.name ≡ name
  pub observed : node.status ≡ some status
  pub stopped : ray_component_stopped status.components ≡ true

WorkerStopped-cons :
    {nodes : List (Option StaticNode)} {name : String} (other : Option StaticNode)
    → WorkerStopped nodes name
    → WorkerStopped (other ∷ nodes) name
WorkerStopped-cons other w = record {
  node = w.node;
  status = w.status;
  listed = Memᴰ.tail w.listed;
  named = w.named;
  observed = w.observed;
  stopped = w.stopped;
}

stopped_workers_step_cases :
    (worker_names : List String) (seen : List (String × Bool)) (node : StaticNode)
    (observed : Option StaticNodeStatus) (name : String)
    → lookup name (stopped_workers_step worker_names seen node observed) ≡ some true
    → (lookup name seen ≡ some true)
      ⊎ ((s : StaticNodeStatus) × (node.metadata.name ≡ name)
          × (observed ≡ some s)
          × (ray_component_stopped s.components ≡ true))
unfolding stopped_workers_step
stopped_workers_step_cases worker_names seen node none name h = inl h
stopped_workers_step_cases worker_names seen node (some status) name h =
    elim (Bool-cases (contains worker_names node.metadata.name)) [
      | inr out ↦ inl (rw out at h)
      | inl worker ↦ elim (Bool-cases (node.metadata.name == name)) [
        | inl same ↦ inr (
          status,
          (eq_iff node.metadata.name name).0 same,
          refl,
          ground (
            arith,
            lookup-insert seen node.metadata.name (ray_component_stopped status.components) name,
          ),
        )
        | inr differ ↦ inl (
            ground (
              arith,
              lookup-insert seen node.metadata.name (ray_component_stopped status.components) name,
            ))
      ]
    ]

stopped_workers_from-WorkerStopped :
    (worker_names : List String) (seen : List (String × Bool)) (nodes : List (Option StaticNode))
    (name : String)
    → lookup name (stopped_workers_from worker_names seen nodes) ≡ some true
    → (lookup name seen ≡ some true) ⊎ WorkerStopped nodes name
unfolding stopped_workers_from
stopped_workers_from-WorkerStopped worker_names seen [] name h = inl h
stopped_workers_from-WorkerStopped worker_names seen (none ∷ nodes) name h =
    elim (stopped_workers_from-WorkerStopped worker_names seen nodes name h) [
      | inl e ↦ inl e
      | inr w ↦ inr (WorkerStopped-cons none w)
    ]
stopped_workers_from-WorkerStopped worker_names seen (some node ∷ nodes) name h =
    elim (stopped_workers_from-WorkerStopped worker_names
      (stopped_workers_step worker_names seen node node.status) nodes name h) [
        | inr w ↦ inr (WorkerStopped-cons (some node) w)
        | inl e ↦ elim (stopped_workers_step_cases worker_names seen node node.status name e) [
          | inl old ↦ inl old
          | inr (status, named, observed, stopped) ↦ inr (record {
            node = node;
            status = status;
            listed = Memᴰ.head refl;
            named = named;
            observed = observed;
            stopped = stopped;
          })
        ]
      ]

is_true_lem : (o : Option Bool) → is_true o ≡ true → o ≡ some true
is_true_lem none h = cc
is_true_lem (some b) h = cc

-- A worker counts as stopped only if a node of its name is observed with its Ray worker stopped.
workers_stopped-WorkerStopped :
    (cluster : Option StaticNodeCluster) (nodes : List (Option StaticNode))
    → static_node_cluster_workers_stopped cluster nodes ≡ true
    → All (WorkerStopped nodes) (static_node_cluster_worker_names cluster)
unfolding static_node_cluster_workers_stopped lookup
workers_stopped-WorkerStopped cluster nodes h =
    all-All (WorkerStopped nodes) _ (static_node_cluster_worker_names cluster)
      (λ name t.
        elim (stopped_workers_from-WorkerStopped (static_node_cluster_worker_names cluster) [] nodes
          name (is_true_lem _ t)) [ inl e ↦ cc | inr w ↦ w ])
      h

module _ (cluster : Option StaticNodeCluster) (nodes : List (Option StaticNode))
    (plans : List DesiredNodePlan) where
  abbrev step_here : UpgradeStep
  step_here = static_node_cluster_upgrade_step_from_observed_state cluster nodes plans

  -- The head is started at its target only when every worker of the spec is observed stopped.
  pub starting_head-WorkerStopped :
      step_here ≡ starting_head
      → All (WorkerStopped nodes) (static_node_cluster_worker_names cluster)
  unfolding static_node_cluster_upgrade_step_from_observed_state
  starting_head-WorkerStopped h = workers_stopped-WorkerStopped cluster nodes (ground arith)

  -- The workers are started only when one of them was already given its target, or when every
  -- worker is observed stopped and the head runs its target.
  pub starting_workers_cases :
      step_here ≡ starting_workers
      → (static_node_cluster_worker_target_spec_issued cluster nodes plans ≡ true)
        ⊎ (All (WorkerStopped nodes) (static_node_cluster_worker_names cluster)
            × (static_node_cluster_head_ray_running_target cluster nodes plans ≡ true))
  unfolding static_node_cluster_upgrade_step_from_observed_state
  starting_workers_cases h =
      elim (Bool-cases (static_node_cluster_worker_target_spec_issued cluster nodes plans)) [
        | inl e ↦ inl e
        | inr e ↦ inr (workers_stopped-WorkerStopped cluster nodes (ground arith), ground arith)
      ]
