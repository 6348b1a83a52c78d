-- ===== src/StaticNode/Components/Stopping.antt =====
-- reconciler.go: what is reported of a Ray worker that the spec does not ask for.
use neutree.Prelude.{
  String, Bool, ap, sym, true, false, ◌||◌, Option, List, [], ◌∷◌, ◌++◌, ◌≡◌, refl, map, any,
  contains, is_blank, arith, Bool-cases, inl, inr, eq_iff,
}
use neutree.Prelude.Result.{Result}
use neutree.Api.Component.{NodeComponentSpec, NodeComponentStatus}
use neutree.Api.StaticNode.{StaticNode}
use neutree.StaticCluster.Plan.{is_ray_worker_component_name, ray_worker_component_name}
use neutree.StaticCluster.Observed.{ray_component_stopped}
use neutree.StaticCluster.Planner.Validity.{is_ok}
use neutree.StaticNode.Host.{Host, Failure, Outcome, done, failed, Action, resume, return, ◌>>=◌}
use neutree.StaticNode.Ends.{Ends, Any, continue-Ends, resume-Ends, weaken-Ends, wrap-Ends}
use neutree.StaticNode.Removal.{named_component}
use neutree.StaticNode.RunCommand.{component_container_name}
use neutree.StaticNode.Docker.{remove_container}
use neutree.StaticNode.Warm.{Reported}
use neutree.StaticNode.Components.{
  error_list, reconcile_component, reconcile_each, new_docker_runtime, removed, stop_each,
  stop_from, stop_stale_components, reconcile_components,
}
use neutree.StaticNode.Components.Running.{ReadyIsChecked, reconcile_component-ready}

-- A component that is kept is not the Ray worker.
kept-is_other :
    (name : String) (desired : List String)
    → contains desired ray_worker_component_name ≡ false
    → is_blank name || contains desired name ≡ true
    → is_ray_worker_component_name name ≡ false
kept-is_other name desired absent kept = elim (Bool-cases (is_ray_worker_component_name name)) [
  | inl is_worker ↦ absurd (
      let same = (eq_iff name ray_worker_component_name).0 is_worker in
      let lost = ap (λ x. is_blank x || contains desired x) (sym same) in
      ground (arith, kept, absent, lost))
  | inr is_other ↦ is_other
]

-- The statuses of the components, and the errors.
abbrev Reports : Type 0
Reports = List NodeComponentStatus × List Failure

-- The first Ray worker among the statuses is there, and it is stopped.
abbrev pub IsRayStopped : List NodeComponentStatus × List Failure → Type 0
IsRayStopped reports = ray_component_stopped reports.0 ≡ true

module _ {S : Type 0} (host : Host S) (digest : NodeComponentSpec → String) (configured : Bool)
    (head_ready_checker : Option (Option StaticNode → Result Bool)) (node : Option StaticNode)
    (succeeds : (s : S) (text : String) → is_ok (host.run s text).1 ≡ true) where
  component-Ends :
      (component : NodeComponentSpec) (o : S × Outcome (Reported NodeComponentStatus))
      → ReadyIsChecked host digest configured head_ready_checker node component o
      → Ends Any o
  component-Ends component (s, done reported) h = tt
  component-Ends component (s, failed failure) h = h

  each-Ends :
      (components : List NodeComponentSpec) (s : S)
      → Ends Any (reconcile_each host digest configured head_ready_checker node components s)
  unfolding reconcile_each
  each-Ends [] s = tt
  each-Ends (component ∷ components) s =
      continue-Ends Any Any
        (reconcile_component host digest configured head_ready_checker node component s) _
        (component-Ends component _
          (reconcile_component-ready host digest configured head_ready_checker node component s))
        (λ reported s' u.
          continue-Ends Any Any
            (reconcile_each host digest configured head_ready_checker node components s') _
            (each-Ends components s') (λ later s'' v. tt))

  remove-Ends : (name : String) (s : S) → Ends Any (remove_container host configured name s)
  unfolding remove_container
  remove-Ends name s = wrap-Ends _ (host.run s _) (succeeds s _)

  -- A Ray worker among the statuses is among the reports as one that is stopped.
  abbrev Stops : List NodeComponentStatus → Reports → Type 0
  Stops statuses reports =
      any (λ c. is_ray_worker_component_name c.name) statuses ≡ true
      → ray_component_stopped reports.0 ≡ true

  stop_current : String → Action S Reports → Outcome String → Action S Reports
  stop_current name later outcome = later >>= λ rest.
      let reported = removed host digest configured head_ready_checker node name outcome in
      return (reported.0 ∷ rest.0, error_list reported.1 ++ rest.1)

  stop-Ends :
      (desired : List String) (statuses : List NodeComponentStatus) (s : S)
      → contains desired ray_worker_component_name ≡ false
      → Ends
          (Stops statuses)
          (stop_each host digest configured head_ready_checker node desired statuses s)
  unfolding stop_each stop_current ray_component_stopped removed
  stop-Ends desired [] s absent = λ is_listed. ground (arith, is_listed)
  stop-Ends desired (current ∷ statuses) s absent =
      let later = stop_each host digest configured head_ready_checker node desired statuses in
      elim (Bool-cases (is_blank current.name || contains desired current.name)) [
        | inl e ↦
            rw (e, stop_each)
              (weaken-Ends (Stops statuses) (Stops (current ∷ statuses)) (later s)
                (stop-Ends desired statuses s absent)
                (λ reports stops.
                  rw (kept-is_other current.name desired absent e) (λ is_listed. stops is_listed)))
        | inr e ↦
            rw (e, stop_each)
              (resume-Ends {B = Reports} (Stops (current ∷ statuses))
                (remove_container host configured
                  (component_container_name node (named_component current.name)) s)
                (stop_current current.name later)
                (remove-Ends (component_container_name node (named_component current.name)) s)
                (λ output s'.
                  continue-Ends {B = Reports} (Stops statuses) (Stops (current ∷ statuses))
                    (later s')
                    (λ rest. return (
                      (removed host digest configured head_ready_checker node current.name
                            (done output)).0
                          ∷ rest.0,
                      rest.1,
                    ))
                    (stop-Ends desired statuses s' absent)
                    (λ rest s'' stops.
                      elim (Bool-cases (is_ray_worker_component_name current.name)) [
                        | inl is_worker ↦ rw is_worker (λ is_listed. refl)
                        | inr is_other ↦ rw is_other (λ is_listed. stops is_listed)
                      ])))
      ]

  from-Ends :
      (desired : List String) (statuses : List NodeComponentStatus) (o : S × Outcome String)
      → contains desired ray_worker_component_name ≡ false
      → Ends Any o
      → Ends (Stops statuses) (
          resume {B = Reports} o
            (stop_from host digest configured head_ready_checker node desired statuses))
  unfolding stop_from
  from-Ends desired statuses (s, done output) absent h = stop-Ends desired statuses s absent
  from-Ends desired statuses (s, failed failure) absent h = absurd h

  stale-Ends :
      (components : List NodeComponentSpec) (statuses : List NodeComponentStatus) (s : S)
      → contains (map (λ c. c.name) components) ray_worker_component_name ≡ false
      → Ends (Stops statuses) (
          stop_stale_components host digest configured head_ready_checker node components statuses
            s)
  unfolding stop_stale_components new_docker_runtime
  stale-Ends components [] s absent = λ is_listed. ground (arith, is_listed)
  stale-Ends components (status ∷ statuses) s absent =
      from-Ends (map (λ c. c.name) components) (status ∷ statuses)
        (new_docker_runtime host digest configured head_ready_checker node s) absent
        (wrap-Ends _ (host.run s _) (succeeds s _))

  stopped_before :
      (xs ys : List NodeComponentStatus)
      → ray_component_stopped xs ≡ true
      → ray_component_stopped (xs ++ ys) ≡ true
  unfolding ray_component_stopped
  stopped_before [] ys h = ground (arith, h)
  stopped_before (x ∷ xs) ys h = let later = stopped_before xs ys in ground (arith, h, later)

  rounds-Ends :
      (components : List NodeComponentSpec) (statuses : List NodeComponentStatus) (s : S)
      → contains (map (λ c. c.name) components) ray_worker_component_name ≡ false
      → any (λ c. is_ray_worker_component_name c.name) statuses ≡ true
      → Ends IsRayStopped (
          (stop_stale_components host digest configured head_ready_checker node components statuses
              >>= λ stale.
                  reconcile_each host digest configured head_ready_checker node components
                  >>= λ current. return (stale.0 ++ current.0, stale.1 ++ current.1))
            s)
  rounds-Ends components statuses s absent is_listed =
      continue-Ends {B = Reports} (Stops statuses) IsRayStopped
        (stop_stale_components host digest configured head_ready_checker node components statuses s)
        (λ stale.
          reconcile_each host digest configured head_ready_checker node components >>= λ current.
          return (stale.0 ++ current.0, stale.1 ++ current.1))
        (stale-Ends components statuses s absent)
        (λ stale s' stops.
          continue-Ends {B = Reports} Any IsRayStopped
            (reconcile_each host digest configured head_ready_checker node components s')
            (λ current. return (stale.0 ++ current.0, stale.1 ++ current.1))
            (each-Ends components s')
            (λ current s'' u. stopped_before stale.0 current.0 (stops is_listed)))

  -- On a host whose commands succeed, a round over the components of a node that reported a Ray
  -- worker, and whose spec has none, ends, and reports the Ray worker stopped.
  pub reconcile_components-IsRayStopped :
      (components : List NodeComponentSpec) (statuses : List NodeComponentStatus) (s : S)
      → contains (map (λ c. c.name) components) ray_worker_component_name ≡ false
      → any (λ c. is_ray_worker_component_name c.name) statuses ≡ true
      → Ends IsRayStopped (
          reconcile_components host digest configured head_ready_checker node components statuses s)
  unfolding reconcile_components
  reconcile_components-IsRayStopped components [] s absent is_listed =
      absurd (ground (arith, is_listed))
  reconcile_components-IsRayStopped [] (status ∷ statuses) s absent is_listed =
      rounds-Ends [] (status ∷ statuses) s absent is_listed
  reconcile_components-IsRayStopped (component ∷ components) (status ∷ statuses) s absent
        is_listed =
      rounds-Ends (component ∷ components) (status ∷ statuses) s absent is_listed
