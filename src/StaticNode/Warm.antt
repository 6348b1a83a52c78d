-- ===== src/StaticNode/Warm.antt =====
-- reconciler.go: the images that a node is to have before its components are reconciled.
pub mod Ready
use Prim.Native.String.{◌++◌ as concat}
use neutree.Prelude.{
  String, Bool, true, false, not, ◌&&◌, ◌||◌, Option, none, some, List, [], ◌∷◌, ◌==◌, ◌≡◌, refl,
  ◌++◌, follow, is_blank, is_empty, Bool-cases, inl, inr, arith, eq_iff, eq_refl, if◌then◌else◌,
}
use neutree.Api.Component.{
  WarmSpec, WarmImageSpec, WarmImageStatus, WarmStatus, WarmPhase, pending, pulling, ready, failed,
}
use neutree.Api.StaticNode.{StaticNode}
use neutree.StaticNode.Host.{
  Host, Failure, Outcome, done, Action, docker_reason, plain_error, return, attempt, ◌>>=◌,
}
use neutree.StaticNode.Docker.{inspect_image_digest, pull_image}

-- `WarmImageStatus{Name: image.Name, Ref: image.Ref, Phase: v1.WarmPhasePending}`
abbrev pub pending_image : WarmImageSpec → WarmImageStatus
pending_image image = record {
  name = image.name;
  ref = image.ref;
  ready = false;
  digest = "";
  phase = pending;
  reason = "";
  message = "";
  last_transition_time = "";
}

abbrev pub ready_image : WarmImageSpec → String → String → WarmImageStatus
ready_image image digest reason =
    let status = pending_image image in
    record status { ready = true; digest = digest; phase = ready; reason = reason }

abbrev pub failed_image : WarmImageSpec → String → String → WarmImageStatus
failed_image image reason message =
    let status = pending_image image in
    record status { phase = failed; reason = reason; message = message }

-- A status and the error beside it.
abbrev pub Reported : Type 0 → Type 0
Reported A = A × Option Failure

-- The test after the pull.
abbrev pub after_pull : WarmImageSpec → Outcome String → Reported WarmImageStatus
after_pull image inspected =
    let message = concat "failed to inspect image " (concat image.ref " after pull") in
    elim inspected [
      | done digest ↦
          if is_blank digest
          then (failed_image image "ImageInspectFailed" message, some (plain_error message))
          else (ready_image image digest "ImagePulled", none)
      | Outcome.failed failure ↦
          let text = concat message (concat ": " failure.message) in
          (failed_image image "ImageInspectFailed" text, some (plain_error text))
    ]

abbrev pub warm_status : Bool → List WarmImageStatus → String → String → WarmStatus
warm_status all_ready images reason message = record {
  ready = all_ready;
  images = images;
  reason = reason;
  message = message;
  last_transition_time = "";
}

module _ {S : Type 0} (host : Host S) (configured : Bool) where
  -- After the pull, the image is inspected once more.
  unfoldable pub inspect_pulled :
      WarmImageSpec → Outcome String → Action S (Reported WarmImageStatus)
  unfolding inspect_image_digest
  inspect_pulled image (Outcome.failed failure) =
      return (failed_image image "ImagePullFailed" failure.message, some failure)
  inspect_pulled image (done output) =
      attempt (inspect_image_digest host configured image.ref)
        (λ inspected. return (after_pull image inspected))

  unfoldable pub pull_and_inspect : WarmImageSpec → Action S (Reported WarmImageStatus)
  unfolding pull_image inspect_pulled
  pull_and_inspect image = attempt (pull_image host configured image.ref) (inspect_pulled image)

  -- What the first inspection says; a failure of it counts as no digest.
  abbrev digest_of : Outcome String → String
  digest_of (done digest) = digest
  digest_of (Outcome.failed failure) = ""

  unfoldable pub reconcile_warm_image : WarmImageSpec → Action S (Reported WarmImageStatus)
  unfolding inspect_image_digest pull_and_inspect
  reconcile_warm_image image =
      if is_blank image.ref
      then return (
        failed_image image "ImageInspectFailed" "warm image ref is required",
        some (plain_error "warm image ref is required"),
      )
      else attempt (inspect_image_digest host configured image.ref) (λ inspected.
        if is_blank (digest_of inspected)
        then pull_and_inspect image
        else return (ready_image image (digest_of inspected) "ImageReady", none))

  -- The error that ends the loop, if there is one.
  abbrev pub stop_or :
      List WarmImageStatus
      → WarmImageStatus
      → Action S (Reported WarmStatus)
      → Option Failure
      → Action S (Reported WarmStatus)
  stop_or images status later (some failure) =
      return (warm_status false images status.reason status.message, some failure)
  stop_or images status later none = later

  -- The body of the loop behind `reconcileWarmImage`: the error of a required image ends it, else
  -- `later` goes on.
  unfoldable pub warm_next :
      List WarmImageStatus
      → Bool
      → WarmImageSpec
      → (List WarmImageStatus → Bool → Action S (Reported WarmStatus))
      → Reported WarmImageStatus
      → Action S (Reported WarmStatus)
  warm_next images all_ready image later reported =
      let images' = images ++ reported.0 ∷ [] in
      stop_or images' reported.0
        (later images' (all_ready && (not image.required || reported.0.ready)))
        (if image.required then reported.1 else none)

  unfoldable pub warm_loop :
      List WarmImageSpec → List WarmImageStatus → Bool → Action S (Reported WarmStatus)
  unfolding reconcile_warm_image warm_next
  warm_loop [] images all_ready = return (warm_status all_ready images "" "", none)
  warm_loop (image ∷ specs) images all_ready =
      reconcile_warm_image image >>= warm_next images all_ready image (warm_loop specs)

  unfoldable pub warm_round : Option WarmSpec → Action S (Reported WarmStatus)
  unfolding warm_loop
  warm_round none = return (warm_status true [] "" "", none)
  warm_round (some warm) = warm_loop warm.images [] true

  -- `ReconcileWarmImages`
  unfoldable pub reconcile_warm_images : Option StaticNode → Action S (Reported WarmStatus)
  unfolding warm_round
  reconcile_warm_images node = warm_round (follow (follow node (λ n. n.spec)) (λ s. s.warm))
