-- ===== src/StaticNode/Components.antt =====
-- reconciler.go and component_files.go: the components of a node. The fingerprint `digest` and the
-- readiness of the head node are given.
pub mod Running
pub mod Stopping
use Prim.Native.String.{◌++◌ as concat}
use neutree.Prelude.{
  ℕ, String, Bool, true, false, not, ◌&&◌, ◌||◌, Option, none, some, List, [], ◌∷◌, ◌++◌, ◌==◌,
  follow, contains, map, is_blank, is_empty, is_nil, leb, if◌then◌else◌,
}
use neutree.Prelude.Int.{ℤ, pos, is_zero, is_not_positive}
use neutree.Prelude.Result.{Result, ok, err}
use neutree.Strings.{join, trim_space, has_prefix, contains_char, decimal}
use neutree.Api.Component.{
  NodeComponentSpec, NodeComponentConfigFile, NodeComponentHealthCheck, NodeComponentStatus,
  NodeComponentPhase, pending, starting, running, failed, stopped, unset,
}
use neutree.Api.StaticNode.{StaticNode}
use neutree.StaticCluster.Hashes.{hash}
use neutree.StaticNode.Head.{should_wait_for_head}
use neutree.StaticNode.Removal.{named_component}
use neutree.StaticNode.Host.{
  Host, Failure, Outcome, done, Action, docker_reason, docker_error, plain_error, command, return,
  fail, attempt, wrap_error, ◌>>=◌, ◌>>◌,
}
use neutree.StaticNode.RunCommand.{shell_arg, shell_args, text_of_int, component_container_name}
use neutree.StaticNode.Docker.{
  component_container_matches, restart_component_container, remove_container,
}
use neutree.StaticNode.Warm.{Reported}
use neutree.StaticNode.Health.{check_component_health}

unfoldable pub component_hash : (NodeComponentSpec → String) → NodeComponentSpec → String
unfolding hash
component_hash digest component =
    if is_blank component.config_hash then hash digest component else component.config_hash

-- `Ready` is set with the phase `Running`, and with no other.
abbrev pub is_running_phase : NodeComponentPhase → Bool
is_running_phase running = true
is_running_phase _ = false

-- The status of a component with that phase.
abbrev pub component_status :
    (NodeComponentSpec → String)
    → NodeComponentSpec
    → NodeComponentPhase
    → String
    → String
    → NodeComponentStatus
component_status digest component phase reason message = record {
  name = component.name;
  ready = is_running_phase phase;
  phase = phase;
  observed_hash = component_hash digest component;
  observed_image = component.image;
  reason = reason;
  message = message;
  last_transition_time = "";
}

abbrev pub error_list : Option Failure → List Failure
error_list none = []
error_list (some failure) = failure ∷ []

module _ {S : Type 0} (host : Host S) where
  -- The loop of `writeComponentConfigFiles`.
  unfoldable pub write_files : Bool → List NodeComponentConfigFile → Action S Bool
  write_files changed [] = return changed
  write_files changed (file ∷ files) =
      (λ s.
        wrap_error
          (λ error.
            plain_error
              (concat "failed to write config file " (concat file.path (concat ": " error))))
          (host.write_file_if_changed s file))
      >>= λ file_changed.
          write_files (changed || (file_changed && not file.skip_restart_on_change)) files

  unfoldable pub write_component_config_files : NodeComponentSpec → Action S Bool
  unfolding write_files
  write_component_config_files component = write_files false component.config_files

module _ {S : Type 0} (host : Host S) (digest : NodeComponentSpec → String) (configured : Bool)
    (head_ready_checker : Option (Option StaticNode → Result Bool)) (node : Option StaticNode) where
  abbrev status_of : NodeComponentSpec → NodeComponentPhase → String → String → NodeComponentStatus
  status_of = component_status digest

  -- The end of `reconcileComponent`.
  unfoldable pub report_health :
      NodeComponentSpec → Outcome (Unit {0}) → Reported NodeComponentStatus
  report_health component (done _) = (status_of component running "Running" "", none)
  report_health component (Outcome.failed failure) =
      (status_of component starting "HealthCheckFailed" failure.message, none)

  unfoldable pub finish_component : NodeComponentSpec → Action S (Reported NodeComponentStatus)
  unfolding check_component_health report_health
  finish_component component =
      attempt (check_component_health host node component)
        (λ checked. return (report_health component checked))

  unfoldable pub after_restart :
      NodeComponentSpec → Outcome String → Action S (Reported NodeComponentStatus)
  unfolding finish_component docker_reason
  after_restart component (done output) = finish_component component
  after_restart component (Outcome.failed failure) = return (
    status_of component failed (docker_reason failure "ContainerRunFailed") failure.message,
    some failure,
  )

  -- A container that cannot be inspected does not match.
  abbrev pub matches_of : Outcome Bool → Bool
  matches_of (done matches) = matches
  matches_of (Outcome.failed failure) = false

  unfoldable pub restart_unless_same :
      NodeComponentSpec → Bool → Outcome Bool → Action S (Reported NodeComponentStatus)
  unfolding after_restart restart_component_container
  restart_unless_same component config_changed inspected =
      if config_changed || not (matches_of inspected)
      then attempt
          (restart_component_container host configured node component
            (component_hash digest component))
          (after_restart component)
      else finish_component component

  unfoldable pub after_files :
      NodeComponentSpec → Outcome Bool → Action S (Reported NodeComponentStatus)
  unfolding restart_unless_same component_container_matches component_container_name
  after_files component (done config_changed) =
      attempt
        (component_container_matches host configured (component_container_name node component)
          (component_hash digest component))
        (restart_unless_same component config_changed)
  after_files component (Outcome.failed failure) =
      return (status_of component failed "ConfigWriteFailed" failure.message, some failure)

  abbrev pub waiting_message : Option String → String
  waiting_message none = "head static node is not ready"
  waiting_message (some error) = error

  unfoldable pub reconcile_component : NodeComponentSpec → Action S (Reported NodeComponentStatus)
  unfolding should_wait_for_head write_component_config_files after_files
  reconcile_component component =
      let (wait, error) = should_wait_for_head head_ready_checker node in
      if not (is_nil error) || wait
      then return (status_of component pending "HeadNodePending" (waiting_message error), none)
      else if is_blank component.image
      then return (
        status_of component failed "ImageMissing" "component image is required",
        some (plain_error "component image is required"),
      )
      else attempt (write_component_config_files host component) (after_files component)

  -- The loop of `ReconcileComponents` over the components of the spec: an error does not end it.
  unfoldable pub reconcile_each :
      List NodeComponentSpec → Action S (List NodeComponentStatus × List Failure)
  unfolding reconcile_component
  reconcile_each [] = return ([], [])
  reconcile_each (component ∷ components) = reconcile_component component >>= λ reported.
      reconcile_each components >>= λ later.
      return (reported.0 ∷ later.0, error_list reported.1 ++ later.1)

  -- `NewDockerRuntime` without credentials.
  unfoldable pub new_docker_runtime : Action S String
  unfolding shell_arg docker_error
  new_docker_runtime =
      command host (concat "mkdir -p " (shell_arg "/etc/neutree/docker"))
        (docker_error "DockerConfigFailed" "failed to create docker config dir /etc/neutree/docker")

  stopped_status : String → NodeComponentPhase → String → String → NodeComponentStatus
  stopped_status name phase reason message = record {
    name = name;
    ready = false;
    phase = phase;
    observed_hash = "";
    observed_image = "";
    reason = reason;
    message = message;
    last_transition_time = "";
  }

  unfoldable pub removed : String → Outcome String → Reported NodeComponentStatus
  unfolding stopped_status docker_reason
  removed name (done output) = (stopped_status name stopped "Stopped" "", none)
  removed name (Outcome.failed failure) = (
    stopped_status name failed (docker_reason failure "ContainerRunFailed") failure.message,
    some failure,
  )

  -- The loop over the components of the node's status.
  unfoldable pub stop_each :
      List String → List NodeComponentStatus → Action S (List NodeComponentStatus × List Failure)
  unfolding removed remove_container component_container_name
  stop_each desired [] = return ([], [])
  stop_each desired (current ∷ statuses) =
      let later = stop_each desired statuses in
      if is_blank current.name || contains desired current.name
      then later
      else attempt
          (remove_container host configured
            (component_container_name node (named_component current.name)))
          (λ outcome. later >>= λ rest.
            let reported = removed current.name outcome in
            return (reported.0 ∷ rest.0, error_list reported.1 ++ rest.1))

  unfoldable pub stop_from :
      List String
      → List NodeComponentStatus
      → Outcome String
      → Action S (List NodeComponentStatus × List Failure)
  unfolding stop_each
  stop_from desired statuses (done output) = stop_each desired statuses
  stop_from desired statuses (Outcome.failed failure) = return ([], failure ∷ [])

  -- `stopStaleComponents`, for a node with that spec and those components in its status.
  unfoldable pub stop_stale_components :
      List NodeComponentSpec
      → List NodeComponentStatus
      → Action S (List NodeComponentStatus × List Failure)
  unfolding new_docker_runtime stop_from
  stop_stale_components components statuses =
      if is_empty statuses
      then return ([], [])
      else attempt new_docker_runtime (stop_from (map (λ c. c.name) components) statuses)

  -- `ReconcileComponents`, for a node with that spec; the errors are the parts of the aggregate.
  unfoldable pub reconcile_components :
      List NodeComponentSpec
      → List NodeComponentStatus
      → Action S (List NodeComponentStatus × List Failure)
  unfolding stop_stale_components reconcile_each
  reconcile_components components statuses =
      if is_empty components && is_empty statuses
      then return ([], [])
      else stop_stale_components components statuses >>= λ stale.
          reconcile_each components >>= λ current.
          return (stale.0 ++ current.0, stale.1 ++ current.1)
