-- ===== src/StaticNode/Status/Ready.antt =====
-- What it means that a node is reported ready.
use neutree.Prelude.{
  String, Bool, true, false, not, ◌&&◌, Option, none, some, List, [], ◌≡◌, refl, ◌↔◌, ◌∙◌, ap, sym,
  all, All, all-All, All-all, is_empty, arith,
}
use neutree.Api.Component.{NodeComponentStatus, NodeComponentPhase, running, WarmStatus}
use neutree.Api.StaticNode.{StaticNode}
use neutree.StaticNode.Status.{
  ReconcileResult, build_status, observed_status, set_phase, all_node_components_ready,
  component_is_ready, is_ready, is_running, is_warming,
}

-- What the round found, or what the stored status has where the round came to nothing.
abbrev pub latest : {A : Type 0} → Option A → A → A
latest none stored = stored
latest (some new) stored = new

abbrev stored_components : StaticNode → List NodeComponentStatus
stored_components node = elim node.status [ none ↦ [] | some status ↦ status.components ]

abbrev pub stored_warm : StaticNode → Option WarmStatus
stored_warm node = elim node.status [ none ↦ none | some status ↦ status.warm ]

abbrev pub latest_warm : ReconcileResult → StaticNode → Option WarmStatus
latest_warm result node = elim result.warm [ none ↦ stored_warm node | some warm ↦ some warm ]

abbrev pub latest_components : ReconcileResult → StaticNode → List NodeComponentStatus
latest_components result node = latest result.components (stored_components node)

abbrev pub IsWarm : Option WarmStatus → Type 0
IsWarm none = Unit
IsWarm (some warm) = warm.ready ≡ true

abbrev pub Runs : NodeComponentStatus → Type 0
Runs component = (component.phase ≡ running) × (component.ready ≡ true)

-- The round came to no error, the images are there, and all of the components run, one at least.
pub record IsUp (node : StaticNode) (result : ReconcileResult) (error : Option String)
    : Type 0 where
  pub no_error : error ≡ none
  pub warm : IsWarm (latest_warm result node)
  pub some_component : is_empty (latest_components result node) ≡ false
  pub each_runs : All Runs (latest_components result node)

phase_running : (phase : NodeComponentPhase) → is_running phase ≡ true → phase ≡ running
phase_running running h = refl
phase_running _ h = absurd (ground (arith, h))

is_running-Runs :
    (component : NodeComponentStatus) → component_is_ready component ≡ true → Runs component
is_running-Runs component h = (phase_running component.phase (ground (arith, h)), ground (arith, h))

Runs-is_ready :
    (component : NodeComponentStatus) → Runs component → component_is_ready component ≡ true
Runs-is_ready component h = rw (h.0, h.1) refl

build_status-is_ready :
    (now : String) (node : Option StaticNode) (result : Option ReconcileResult)
    → is_ready (build_status now node result none).phase ≡ (
        not (is_warming (observed_status node result).warm)
        && not (is_empty (observed_status node result).components)
        && all component_is_ready (observed_status node result).components)
unfolding build_status set_phase all_node_components_ready
build_status-is_ready now current result = ground arith

observed-warm :
    (node : StaticNode) (result : ReconcileResult)
    → (observed_status (some node) (some result)).warm ≡ latest_warm result node
unfolding observed_status
observed-warm node result = ground arith

observed-components :
    (node : StaticNode) (result : ReconcileResult)
    → (observed_status (some node) (some result)).components ≡ latest_components result node
unfolding observed_status
observed-components node result = ground arith

is_warming-IsWarm : (warm : Option WarmStatus) → is_warming warm ≡ false → IsWarm warm
is_warming-IsWarm none h = tt
is_warming-IsWarm (some warm) h = ground (arith, h)

IsWarm-is_warming : (warm : Option WarmStatus) → IsWarm warm → is_warming warm ≡ false
IsWarm-is_warming none h = refl
IsWarm-is_warming (some warm) h = ground (arith, h)

abbrev verdict : Option WarmStatus → List NodeComponentStatus → Bool
verdict warm components =
    not (is_warming warm) && not (is_empty components) && all component_is_ready components

module _ (now : String) (node : StaticNode) (result : ReconcileResult) where
  is_ready-verdict :
      is_ready (build_status now (some node) (some result) none).phase
      ≡ verdict (latest_warm result node) (latest_components result node)
  is_ready-verdict =
      build_status-is_ready now (some node) (some result)
      ∙ ap (λ w. verdict w (observed_status (some node) (some result)).components)
          (observed-warm node result)
      ∙ ap (verdict (latest_warm result node)) (observed-components node result)

  ready-IsUp :
      (error : Option String)
      → is_ready (build_status now (some node) (some result) error).phase ≡ true
      → IsUp node result error
  unfolding build_status set_phase
  ready-IsUp (some error) h = absurd (ground (arith, h))
  ready-IsUp none h =
      let up : verdict (latest_warm result node) (latest_components result node) ≡ true =
        sym is_ready-verdict ∙ h in
      record {
        no_error = refl;
        warm = is_warming-IsWarm (latest_warm result node) (ground (arith, up));
        some_component = ground (arith, up);
        each_runs =
            all-All Runs component_is_ready (latest_components result node) is_running-Runs
              (ground (arith, up));
      }

  IsUp-ready :
      (error : Option String)
      → IsUp node result error
      → is_ready (build_status now (some node) (some result) error).phase ≡ true
  IsUp-ready (some error) up = absurd (cc up.no_error)
  IsUp-ready none up =
      let cold = IsWarm-is_warming (latest_warm result node) up.warm in
      let run =
        All-all Runs component_is_ready (latest_components result node) Runs-is_ready
          up.each_runs in
      is_ready-verdict ∙ ground (arith, cold, up.some_component, run)

  -- The status that a node gets from a round is Ready exactly when the round came to no error, its
  -- images are not reported unready, and it has components, each of them ready and running; images
  -- and components are those of the round, or those of the stored status where the round came to
  -- none.
  pub build_status-ready_iff :
      (error : Option String)
      → (is_ready (build_status now (some node) (some result) error).phase ≡ true)
        ↔ IsUp node result error
  build_status-ready_iff error = (ready-IsUp error, IsUp-ready error)
