-- ===== src/Progress.antt =====
-- upgrade.go, reconciler.go and status.go together: the plan of a worker in an upgrade, the round
-- over its components, and the status that is built from it.
use mathlib.Core.Path.{subst}
use neutree.Prelude.{
  String, Bool, true, false, Option, none, some, List, [], ◌∷◌, ◌≡◌, refl, sym, inl, inr, map, any,
  contains, All, Among, arith,
}
use neutree.Prelude.Result.{Result}
use neutree.Api.Component.{NodeComponentSpec, NodeComponentStatus, WarmStatus}
use neutree.Api.StaticNode.{StaticNode, StaticNodeSpec, StaticNodeStatus, worker}
use neutree.Api.StaticNodeCluster.{StaticNodeCluster}
use neutree.StaticCluster.Plan.{
  DesiredNodePlan, plan_spec, is_ray_worker_component_name, ray_worker_component_name,
}
use neutree.StaticCluster.Observed.{ray_component_stopped}
use neutree.StaticCluster.Upgrade.{UpgradeState, apply_ray_recreate_upgrade_plan}
use neutree.StaticCluster.Upgrade.Apply.{upgrade_here}
use neutree.StaticCluster.Upgrade.Workers.{
  KeepsWorkersDown, HasNoRayWorker, SpecHasNoRayWorker, has_ray_worker, apply-HasNoRayWorker,
}
use neutree.StaticCluster.Planner.Validity.{is_ok}
use neutree.StaticNode.Host.{Host, Failure}
use neutree.StaticNode.Status.{ReconcileResult, build_status, observed_status, set_phase}
use neutree.StaticNode.Components.{reconcile_components}
use neutree.StaticNode.Ends.{Ends, weaken-Ends}
use neutree.StaticNode.Components.Stopping.{IsRayStopped, reconcile_components-IsRayStopped}

-- The result of a round that has come to these reports on the components.
abbrev pub result_of : Option WarmStatus → List NodeComponentStatus × List Failure → ReconcileResult
result_of warm reports = record {
  accelerator = none;
  allocations = none;
  warm = warm;
  components = some reports.0;
}

-- In the status that is built from the reports the Ray worker counts as stopped.
abbrev pub IsShownStopped :
    String
    → StaticNode
    → Option WarmStatus
    → Option String
    → List NodeComponentStatus × List Failure
    → Type 0
IsShownStopped now node warm error reports =
    ray_component_stopped
      (build_status now (some node) (some (result_of warm reports)) error).components
    ≡ true

components-build_status :
    (now : String) (known : Option StaticNode) (result : ReconcileResult) (error : Option String)
    → (build_status now known (some result) error).components
      ≡ (observed_status known (some result)).components
unfolding build_status observed_status set_phase
components-build_status now known result none = ground arith
components-build_status now known result (some error) = refl

contains-names :
    (components : List NodeComponentSpec)
    → has_ray_worker components ≡ false
    → contains (map (λ c. c.name) components) ray_worker_component_name ≡ false
contains-names [] h = refl
contains-names (component ∷ components) h =
    let later = contains-names components in ground (arith, h, later)

Among-All : {A : Type 0} (P : A → Type 0) (a : A) (xs : List A) → All P xs → Among a xs → P a
Among-All P a [] h at = absurd at
Among-All P a (x ∷ xs) h (inl e) = subst P (sym e) h.0
Among-All P a (x ∷ xs) h (inr at) = Among-All P a xs h.1 at

module _ {S : Type 0} (host : Host S) (digest : NodeComponentSpec → String) (configured : Bool)
    (head_ready_checker : Option (Option StaticNode → Result Bool))
    (succeeds : (s : S) (text : String) → is_ok (host.run s text).1 ≡ true) where
  -- While an upgrade stops the workers or starts the head, take the plan of any worker, and a node
  -- whose status lists a Ray worker. On a host whose commands succeed, the round over the planned
  -- components ends, and in the status that is built from its reports, whatever its time and its
  -- error, the Ray worker counts as stopped.
  pub reconcile_planned-IsShownStopped :
      (cluster : Option StaticNodeCluster) (current_by_name : List (String × StaticNode))
      (plans : List DesiredNodePlan) (upgrade : UpgradeState) (plan : DesiredNodePlan)
      (spec : StaticNodeSpec) (node : StaticNode) (status : StaticNodeStatus) (now : String)
      (warm : Option WarmStatus) (error : Option String) (s : S)
      → upgrade_here cluster current_by_name plans ≡ some upgrade
      → KeepsWorkersDown upgrade.step
      → Among plan (apply_ray_recreate_upgrade_plan cluster current_by_name plans)
      → plan_spec plan ≡ some spec
      → spec.role ≡ worker
      → any (λ c. is_ray_worker_component_name c.name) status.components ≡ true
      → Ends (IsShownStopped now node warm error) (
          reconcile_components host digest configured head_ready_checker
            (some node)
            spec.components
            status.components
            s)
  unfolding observed_status
  reconcile_planned-IsShownStopped cluster current_by_name plans upgrade plan spec node status now
        warm error s here keeps planned has_spec is_worker is_listed =
      let free : SpecHasNoRayWorker (plan_spec plan) =
        Among-All HasNoRayWorker plan _
          (apply-HasNoRayWorker cluster current_by_name plans upgrade here keeps) planned in
      let none_left : has_ray_worker spec.components ≡ false =
        subst SpecHasNoRayWorker has_spec free is_worker in
      weaken-Ends IsRayStopped (IsShownStopped now node warm error)
        (reconcile_components host digest configured head_ready_checker (some node) spec.components
          status.components s)
        (reconcile_components-IsRayStopped host digest configured head_ready_checker (some node)
          succeeds spec.components status.components s (contains-names spec.components none_left)
          is_listed)
        (λ reports stopped.
          rw (components-build_status now (some node) (result_of warm reports) error) stopped)
