-- ===== src/StaticNode/Components/Running.antt =====
-- What a round over a component does, and what its report means.
use neutree.Prelude.{
  String, Bool, true, false, not, ◌||◌, Option, none, some, List, [], ◌∷◌, ◌++◌, ◌≡◌, refl, ◌∙◌,
  is_blank, is_nil, arith, if◌then◌else◌,
}
use neutree.Prelude.Result.{Result}
use neutree.Api.Component.{NodeComponentSpec, NodeComponentStatus, pending}
use neutree.Api.StaticNode.{StaticNode, StaticNodeSpec, worker}
use neutree.StaticNode.Head.{
  should_wait_for_head, head_ready, shows_ready_head, should_wait-head_ready,
}
use neutree.StaticNode.Host.{
  Host, Failure, Outcome, done, failed, Action, continue, resume, return, attempt, ◌>>=◌,
}
use neutree.StaticNode.RunCommand.{component_container_name}
use neutree.StaticNode.Docker.{component_container_matches, restart_component_container}
use neutree.StaticNode.Warm.{Reported}
use neutree.StaticNode.Health.{check_component_health}
use neutree.StaticNode.Components.{
  component_hash, component_status, write_component_config_files, report_health, finish_component,
  after_restart, restart_unless_same, after_files, waiting_message, matches_of, reconcile_component,
  reconcile_each, reconcile_components, stop_stale_components,
}

untouched-after :
    {S A B : Type 0} (m : S × Outcome A) (f : A → B) {s : S}
    → m.0 ≡ s
    → (continue m (λ a. return (f a))).0 ≡ s
untouched-after (s, done a) f e = e
untouched-after (s, failed failure) f e = e

module _ {S : Type 0} (host : Host S) (digest : NodeComponentSpec → String) (configured : Bool)
    (head_ready_checker : Option (Option StaticNode → Result Bool)) (node : Option StaticNode) where
  -- The health check of the component succeeded, and its end is the end of the round.
  pub record Checked (component : NodeComponentSpec) (s' : S) : Type 0 where
    before : S
    passed : check_component_health host node component before ≡ (s', done tt)

  -- The report of a component is ready only behind a health check.
  abbrev pub ReadyIsChecked :
      NodeComponentSpec → S × Outcome (Reported NodeComponentStatus) → Type 0
  ReadyIsChecked component (s', failed failure) = ⊥
  ReadyIsChecked component (s', done (status, error)) = status.ready ≡ true → Checked component s'

  record Safe (component : NodeComponentSpec) (m : Action S (Reported NodeComponentStatus))
      : Type 0 where
    safe : (s : S) → ReadyIsChecked component (m s)

  Safe-if :
      (component : NodeComponentSpec) (test : Bool) {a b : Action S (Reported NodeComponentStatus)}
      → Safe component a
      → Safe component b
      → Safe component (if test then a else b)
  Safe-if component true x y = x
  Safe-if component false x y = y

  checked-finish :
      (component : NodeComponentSpec) (before : S) (after : S × Outcome (Unit {0}))
      → check_component_health host node component before ≡ after
      → ReadyIsChecked component (
          resume after (λ checked.
            return
              (report_health host digest configured head_ready_checker node component checked)))
  unfolding report_health
  checked-finish component before (s', done tt) e = λ ready. record { before = before; passed = e }
  checked-finish component before (s', failed failure) e = λ ready. ground (arith, ready)

  finish-ReadyIsChecked :
      (component : NodeComponentSpec) (s : S)
      → ReadyIsChecked component
          (finish_component host digest configured head_ready_checker node component s)
  unfolding finish_component
  finish-ReadyIsChecked component s =
      checked-finish component s (check_component_health host node component s) refl

  restarted-ReadyIsChecked :
      (component : NodeComponentSpec) (restarted : S × Outcome String)
      → ReadyIsChecked component (
          resume restarted (after_restart host digest configured head_ready_checker node component))
  unfolding after_restart
  restarted-ReadyIsChecked component (s, done output) = finish-ReadyIsChecked component s
  restarted-ReadyIsChecked component (s, failed failure) = λ ready. ground (arith, ready)

  restart-Safe :
      (component : NodeComponentSpec)
      → Safe component (
          attempt
            (restart_component_container host configured node component
              (component_hash digest component))
            (after_restart host digest configured head_ready_checker node component))
  restart-Safe component = record {
    safe = λ s. restarted-ReadyIsChecked component (
        restart_component_container host configured node component (component_hash digest component)
          s);
  }

  same-ReadyIsChecked :
      (component : NodeComponentSpec) (config_changed : Bool) (inspected : S × Outcome Bool)
      → ReadyIsChecked component (
          resume inspected (
            restart_unless_same host digest configured head_ready_checker node component
              config_changed))
  unfolding restart_unless_same
  same-ReadyIsChecked component config_changed (s, inspected) =
      (Safe-if component
          (config_changed
            || not (matches_of host digest configured head_ready_checker node inspected))
          (restart-Safe component) (record { safe = finish-ReadyIsChecked component })).safe
        s

  files-ReadyIsChecked :
      (component : NodeComponentSpec) (written : S × Outcome Bool)
      → ReadyIsChecked component
          (resume written (after_files host digest configured head_ready_checker node component))
  unfolding after_files
  files-ReadyIsChecked component (s, done config_changed) =
      same-ReadyIsChecked component config_changed (
        component_container_matches host configured (component_container_name node component)
          (component_hash digest component) s)
  files-ReadyIsChecked component (s, failed failure) = λ ready. ground (arith, ready)

  -- A round over a component ends whatever the host does, and reports the component ready only if
  -- its health check succeeded, as the last thing that was done on the host.
  pub reconcile_component-ready :
      (component : NodeComponentSpec) (s : S)
      → ReadyIsChecked component
          (reconcile_component host digest configured head_ready_checker node component s)
  unfolding reconcile_component
  reconcile_component-ready component s =
      let waiting = should_wait_for_head head_ready_checker node in
      (Safe-if component (not (is_nil waiting.1) || waiting.0)
          (record { safe = λ s' ready. ground (arith, ready) })
          (Safe-if component (is_blank component.image)
            (record { safe = λ s' ready. ground (arith, ready) })
            (record {
              safe = λ s'.
                  files-ReadyIsChecked component (write_component_config_files host component s');
            }))).safe
        s

  waiting-untouched :
      (component : NodeComponentSpec) (s : S)
      → (should_wait_for_head head_ready_checker node).0 ≡ true
      → reconcile_component host digest configured head_ready_checker node component s ≡ (
        s,
        done (
          component_status digest component pending "HeadNodePending" (
              waiting_message host digest configured head_ready_checker node
                (should_wait_for_head head_ready_checker node).1),
          none,
        ),
      )
  unfolding reconcile_component
  waiting-untouched component s waits = ground (arith, waits)

  each-untouched :
      (components : List NodeComponentSpec) (s : S)
      → (should_wait_for_head head_ready_checker node).0 ≡ true
      → (reconcile_each host digest configured head_ready_checker node components s).0 ≡ s
  unfolding reconcile_each
  each-untouched [] s waits = refl
  each-untouched (component ∷ components) s waits =
      let later = each-untouched components s waits in
      rw (waiting-untouched component s waits) (untouched-after _ _ later)

  stop_none :
      (components : List NodeComponentSpec) (s : S)
      → s ≡ (stop_stale_components host digest configured head_ready_checker node components [] s).0
  unfolding stop_stale_components
  stop_none components s = refl

  then-untouched :
      (components : List NodeComponentSpec)
      (stopped : S × Outcome (List NodeComponentStatus × List Failure))
      → (should_wait_for_head head_ready_checker node).0 ≡ true
      → (continue {B = List NodeComponentStatus × List Failure} stopped (λ stale.
          reconcile_each host digest configured head_ready_checker node components >>= λ current.
          return (stale.0 ++ current.0, stale.1 ++ current.1))).0
        ≡ stopped.0
  then-untouched components (s, done stale) waits =
      untouched-after (reconcile_each host digest configured head_ready_checker node components s)
        (λ current. (stale.0 ++ current.0, stale.1 ++ current.1))
        (each-untouched components s waits)
  then-untouched components (s, failed failure) waits = refl

  round-untouched :
      (components : List NodeComponentSpec) (statuses : List NodeComponentStatus) (s : S)
      → (should_wait_for_head head_ready_checker node).0 ≡ true
      → (reconcile_components host digest configured head_ready_checker node components statuses
          s).0
        ≡ (stop_stale_components host digest configured head_ready_checker node components statuses
            s).0
  unfolding reconcile_components
  round-untouched [] [] s waits = stop_none [] s
  round-untouched [] (status ∷ statuses) s waits = then-untouched [] _ waits
  round-untouched (component ∷ components) statuses s waits =
      then-untouched (component ∷ components) _ waits

module _ {S : Type 0} (host : Host S) (digest : NodeComponentSpec → String)
    (configured : Bool) where
  -- While the storage shows no ready head of its cluster, or cannot be read, a round over the
  -- components of a worker leaves its host as the stopping of stale components leaves it: nothing
  -- is done for the components of its spec.
  pub reconcile_components-waits :
      (list_static_node : String → String → Result (List StaticNode)) (node : StaticNode)
      (spec : StaticNodeSpec) (components : List NodeComponentSpec)
      (statuses : List NodeComponentStatus) (s : S)
      → node.spec ≡ some spec
      → spec.role ≡ worker
      → shows_ready_head
          (list_static_node node.metadata.workspace spec.cluster)
          node.metadata.workspace
          spec.cluster
        ≡ false
      → (reconcile_components host digest configured
          (some (head_ready (some list_static_node)))
          (some node)
          components
          statuses
          s).0
        ≡ (stop_stale_components host digest configured
            (some (head_ready (some list_static_node)))
            (some node)
            components
            statuses
            s).0
  reconcile_components-waits list_static_node node spec components statuses s e is_worker waits =
      round-untouched host digest configured (some (head_ready (some list_static_node))) (some node)
        components statuses s
        (should_wait-head_ready list_static_node node spec e ∙ rw (is_worker, waits))
