-- ===== src/StaticNode/Status.antt =====
-- status.go: the status of a node from what a round of its reconciler came to. `now` is the time
-- that the clock gives, as a text.
pub mod Ready
use mathlib.Core.Bool.{decide}
use neutree.Prelude.{
  String, Bool, true, false, not, ◌&&◌, ◌||◌, Option, none, some, List, [], ◌≡◌, refl, sym, ◌∙◌,
  follow, is_blank, is_empty, all, arith, if◌then◌else◌,
}
use neutree.Api.Component.{WarmStatus, NodeComponentStatus, NodeComponentPhase, running}
use neutree.Api.StaticNode.{
  StaticNode, StaticNodeStatus, StaticNodePhase, unset, warming, reconciling, ready, failed,
  StaticNodeAcceleratorStatus, StaticNodeAllocationStatus,
}

-- A nil slice is `none`.
pub record ReconcileResult : Type 0 where
  pub accelerator : Option StaticNodeAcceleratorStatus
  pub allocations : Option (List StaticNodeAllocationStatus)
  pub warm : Option WarmStatus
  pub components : Option (List NodeComponentStatus)

pub StaticNodePhase-discrete : Discrete StaticNodePhase
StaticNodePhase-discrete = hlevel

abbrev pub same_phase : StaticNodePhase → StaticNodePhase → Bool
same_phase p q = decide (StaticNodePhase-discrete p q)

abbrev pub is_running : NodeComponentPhase → Bool
is_running running = true
is_running _ = false

abbrev empty_status : StaticNodeStatus
empty_status = record {
  phase = unset;
  accelerator = none;
  allocations = [];
  warm = none;
  components = [];
  last_transition_time = "";
  error_message = "";
}

abbrev replace {ℓ} : {A : Type ℓ} → Option A → A → A
replace none old = old
replace (some new) old = new

abbrev replace? {ℓ} : {A : Type ℓ} → Option A → Option A → Option A
replace? none old = old
replace? (some new) old = some new

abbrev pub current_status : Option StaticNode → StaticNodeStatus
current_status node = replace (follow node (λ n. n.status)) empty_status

-- The part of `BuildStatus` before the first phase is set.
unfoldable pub observed_status : Option StaticNode → Option ReconcileResult → StaticNodeStatus
observed_status node none = current_status node
observed_status node (some result) =
    let status = current_status node in
    record status {
      accelerator = replace? result.accelerator status.accelerator;
      allocations = replace result.allocations status.allocations;
      warm = replace? result.warm status.warm;
      components = replace result.components status.components;
    }

unfoldable pub set_phase : String → StaticNodeStatus → StaticNodePhase → StaticNodeStatus
set_phase now status phase = record status {
  last_transition_time =
      if not (same_phase status.phase phase) || is_blank status.last_transition_time
      then now
      else status.last_transition_time;
  phase = phase;
}

abbrev pub component_is_ready : NodeComponentStatus → Bool
component_is_ready component = component.ready && is_running component.phase

unfoldable pub all_node_components_ready : List NodeComponentStatus → Bool
all_node_components_ready components = all component_is_ready components

-- `status.Warm != nil && !status.Warm.Ready`
abbrev pub is_warming : Option WarmStatus → Bool
is_warming none = false
is_warming (some warm) = not warm.ready

unfoldable pub build_status :
    String → Option StaticNode → Option ReconcileResult → Option String → StaticNodeStatus
unfolding observed_status set_phase all_node_components_ready
build_status now node result reconcile_err =
    let status = observed_status node result in
    let clean = record status { error_message = "" } in
    elim reconcile_err [
      | some error ↦ record (set_phase now status failed) { error_message = error }
      | none ↦
          if is_warming status.warm
          then set_phase now clean warming
          else if is_empty status.components
          then set_phase now clean reconciling
          else if not (all_node_components_ready status.components)
          then set_phase now clean reconciling
          else set_phase now clean ready
    ]

abbrev pub is_ready : StaticNodePhase → Bool
is_ready ready = true
is_ready _ = false

record KeepsTime (old new : StaticNodeStatus) : Type 0 where
  kept : new.phase ≡ old.phase → new.last_transition_time ≡ old.last_transition_time

KeepsTime-set_phase :
    (now : String) (old status : StaticNodeStatus) (phase : StaticNodePhase)
    → status.phase ≡ old.phase
    → status.last_transition_time ≡ old.last_transition_time
    → is_blank old.last_transition_time ≡ false
    → KeepsTime old (set_phase now status phase)
unfolding set_phase decide
KeepsTime-set_phase now old status phase p t dated = record {
  kept = λ same.
      elim (StaticNodePhase-discrete status.phase phase)
        as (λ d.
          (if not (decide d) || is_blank status.last_transition_time
            then now
            else status.last_transition_time)
          ≡ old.last_transition_time) [
            | yes e ↦ ground (arith, t)
            | no differ ↦ elim (differ (p ∙ sym same)) [ ]
          ];
}

KeepsTime-if :
    {old a b : StaticNodeStatus} (test : Bool)
    → KeepsTime old a
    → KeepsTime old b
    → KeepsTime old (if test then a else b)
KeepsTime-if true x y = x
KeepsTime-if false x y = y

KeepsTime-build_status :
    (now : String) (node : Option StaticNode) (result : Option ReconcileResult)
    (reconcile_err : Option String)
    → is_blank (observed_status node result).last_transition_time ≡ false
    → KeepsTime (observed_status node result) (build_status now node result reconcile_err)
unfolding build_status
KeepsTime-build_status now current result (some error) dated = record {
  kept =
      (KeepsTime-set_phase now (observed_status current result) (observed_status current result)
        failed refl refl dated).kept;
}
KeepsTime-build_status now current result none dated =
    let status = observed_status current result in
    let clean = record status { error_message = "" } in
    let by =
      λ (phase : StaticNodePhase). KeepsTime-set_phase now status clean phase refl refl dated in
    KeepsTime-if (is_warming status.warm) (by warming) (
      KeepsTime-if (is_empty status.components) (by reconciling) (
        KeepsTime-if (not (all_node_components_ready status.components)) (by reconciling)
          (by ready)))

-- A round that leaves the phase as it was leaves the time of its last transition as it was, where
-- there is one.
pub build_status-transition :
    (now : String) (node : Option StaticNode) (result : Option ReconcileResult)
    (reconcile_err : Option String)
    → is_blank (observed_status node result).last_transition_time ≡ false
    → (build_status now node result reconcile_err).phase ≡ (observed_status node result).phase
    → (build_status now node result reconcile_err).last_transition_time
      ≡ (observed_status node result).last_transition_time
build_status-transition now node result reconcile_err dated same =
    (KeepsTime-build_status now node result reconcile_err dated).kept same
