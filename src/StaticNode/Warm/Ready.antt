-- ===== src/StaticNode/Warm/Ready.antt =====
-- What it means that the images of a node are ready.
use mathlib.Core.Path.{subst⁻¹}
use mathlib.Core.List.{append_assoc, append-nil}
use neutree.Prelude.{
  String, follow, Bool, true, false, not, ◌&&◌, ◌||◌, Option, none, some, List, [], ◌∷◌, ◌==◌, ◌≡◌,
  refl, ◌++◌, ◌∙◌, ap, sym, is_blank, is_nil, arith, eq_refl, if◌then◌else◌, Bool-cases, inl, inr,
}
use neutree.Api.Component.{WarmSpec, WarmImageSpec, WarmImageStatus, WarmStatus}
use neutree.Api.StaticNode.{StaticNode, StaticNodeSpec}
use neutree.StaticNode.Host.{Host, Failure, Outcome, done, failed, Action, continue, resume, return}
use neutree.StaticNode.Docker.{inspect_image_digest, pull_image}
use neutree.StaticNode.Warm.{
  Reported, after_pull, digest_of, inspect_pulled, pull_and_inspect, reconcile_warm_image, stop_or,
  warm_next, warm_loop, warm_round, reconcile_warm_images,
}

-- An image's status is about that image, is ready only with a digest, and stands beside an error
-- exactly when it is not ready.
abbrev image_fits : WarmImageSpec → Outcome (Reported WarmImageStatus) → Bool
image_fits image (failed failure) = false
image_fits image (done (status, error)) =
    status.ref == image.ref
    && (if status.ready then not (is_blank status.digest) && is_nil error else not (is_nil error))

after_pull-fits :
    (image : WarmImageSpec) (inspected : Outcome String)
    → image_fits image (done (after_pull image inspected)) ≡ true
after_pull-fits image (done digest) = ground (arith, eq_refl image.ref)
after_pull-fits image (failed failure) = ground (arith, eq_refl image.ref)

inspected-fits :
    {S : Type 0} (image : WarmImageSpec) (inspected : S × Outcome String)
    → image_fits image (resume inspected (λ i. return (after_pull image i))).1 ≡ true
inspected-fits image (s, outcome) = after_pull-fits image outcome

module _ {S : Type 0} (host : Host S) (configured : Bool) where
  pulled-fits :
      (image : WarmImageSpec) (pulled : S × Outcome String)
      → image_fits image (resume pulled (inspect_pulled host configured image)).1 ≡ true
  unfolding inspect_pulled
  pulled-fits image (s, failed failure) = ground (arith, eq_refl image.ref)
  pulled-fits image (s, done output) =
      inspected-fits image (inspect_image_digest host configured image.ref s)

  pull-fits :
      (image : WarmImageSpec) (s : S)
      → image_fits image (pull_and_inspect host configured image s).1 ≡ true
  unfolding pull_and_inspect
  pull-fits image s = pulled-fits image (pull_image host configured image.ref s)

  image-fits :
      (image : WarmImageSpec) (s : S)
      → image_fits image (reconcile_warm_image host configured image s).1 ≡ true
  unfolding reconcile_warm_image
  image-fits image s =
      let inspected = inspect_image_digest host configured image.ref s in
      let pulled = pull-fits image inspected.0 in
      elim (Bool-cases (is_blank image.ref)) [
        | inl blank ↦ rw blank (ground (arith, eq_refl image.ref))
        | inr named ↦ elim (Bool-cases (is_blank (digest_of host configured inspected.1))) [
          | inl missing ↦ rw (named, missing) pulled
          | inr found ↦ rw (named, found) (ground (arith, found, eq_refl image.ref))
        ]
      ]

-- One status for each image, in order and about it; where the image is required, it is ready and
-- has a digest.
abbrev covers : List WarmImageSpec → List WarmImageStatus → Bool
covers [] [] = true
covers [] (status ∷ statuses) = false
covers (image ∷ images) [] = false
covers (image ∷ images) (status ∷ statuses) =
    status.ref == image.ref
    && (not image.required || (status.ready && not (is_blank status.digest)))
    && covers images statuses

record Warmed (images : List WarmImageSpec) (acc : List WarmImageStatus) (status : WarmStatus)
    : Type 0 where
  tail : List WarmImageStatus
  listed : status.images ≡ acc ++ tail
  covered : covers images tail ≡ true

-- What a ready status says of the images still to come, when `acc` is reported so far.
abbrev ReadyWarms :
    List WarmImageSpec → List WarmImageStatus → Bool → Outcome (Reported WarmStatus) → Type 0
ReadyWarms images acc all_ready (failed failure) = ⊥
ReadyWarms images acc all_ready (done (status, error)) =
    status.ready ≡ true → (all_ready ≡ true) × Warmed images acc status

ReadyWarms-cons :
    (image : WarmImageSpec) (images : List WarmImageSpec) (acc : List WarmImageStatus)
    (all_ready : Bool) (r : Reported WarmImageStatus) (later : Outcome (Reported WarmStatus))
    → image_fits image (done r) ≡ true
    → ReadyWarms images (acc ++ r.0 ∷ []) (all_ready && (not image.required || r.0.ready)) later
    → ReadyWarms (image ∷ images) acc all_ready later
ReadyWarms-cons image images acc all_ready r (failed failure) fits rest = rest
ReadyWarms-cons image images acc all_ready r (done (status, error)) fits rest = λ ready.
    let (flags, warmed) = rest ready in
    (
      ground (arith, flags),
      record {
        tail = r.0 ∷ warmed.tail;
        listed = warmed.listed ∙ append_assoc acc (r.0 ∷ []) warmed.tail;
        covered = let c = warmed.covered in ground (arith, flags, fits, c);
      },
    )

module _ {S : Type 0} (host : Host S) (configured : Bool) where
  stop-ReadyWarms :
      (image : WarmImageSpec) (images : List WarmImageSpec) (acc : List WarmImageStatus)
      (all_ready : Bool) (r : Reported WarmImageStatus) (later : Action S (Reported WarmStatus))
      (s : S)
      → image_fits image (done r) ≡ true
      → ReadyWarms images
          (acc ++ r.0 ∷ [])
          (all_ready && (not image.required || r.0.ready))
          (later s).1
      → (error : Option Failure)
      → ReadyWarms
          (image ∷ images)
          acc
          all_ready
          (stop_or host configured (acc ++ r.0 ∷ []) r.0 later error s).1
  stop-ReadyWarms image images acc all_ready r later s fits rest (some failure) =
      λ never. ground (arith, never)
  stop-ReadyWarms image images acc all_ready r later s fits rest none =
      ReadyWarms-cons image images acc all_ready r (later s).1 fits rest

  image-ReadyWarms :
      (image : WarmImageSpec) (images : List WarmImageSpec) (acc : List WarmImageStatus)
      (all_ready : Bool) (later : List WarmImageStatus → Bool → Action S (Reported WarmStatus))
      (reported : S × Outcome (Reported WarmImageStatus))
      → image_fits image reported.1 ≡ true
      → ((acc' : List WarmImageStatus) (flag : Bool) (s : S)
          → ReadyWarms images acc' flag (later acc' flag s).1)
      → ReadyWarms
          (image ∷ images)
          acc
          all_ready
          (continue reported (warm_next host configured acc all_ready image later)).1
  unfolding warm_next
  image-ReadyWarms image images acc all_ready later (s, failed failure) fits rest =
      ground (arith, fits)
  image-ReadyWarms image images acc all_ready later (s, done r) fits rest =
      let acc' = acc ++ r.0 ∷ [] in
      let flag = all_ready && (not image.required || r.0.ready) in
      stop-ReadyWarms image images acc all_ready r (later acc' flag) s fits (rest acc' flag s)
        (if image.required then r.1 else none)

  loop-ReadyWarms :
      (images : List WarmImageSpec) (acc : List WarmImageStatus) (all_ready : Bool) (s : S)
      → ReadyWarms images acc all_ready (warm_loop host configured images acc all_ready s).1
  unfolding warm_loop
  loop-ReadyWarms [] acc all_ready s =
      λ ready. (ready, record { tail = []; listed = sym (append-nil acc); covered = refl })
  loop-ReadyWarms (image ∷ images) acc all_ready s =
      image-ReadyWarms image images acc all_ready (warm_loop host configured images)
        (reconcile_warm_image host configured image s) (image-fits host configured image s)
        (loop-ReadyWarms images)

  -- The outcome of a round over the images of a spec.
  abbrev pub IsWarmed : List WarmImageSpec → Outcome (Reported WarmStatus) → Type 0
  IsWarmed images (failed failure) = ⊥
  IsWarmed images (done (status, error)) = status.ready ≡ true → covers images status.images ≡ true

  loop-IsWarmed :
      (images : List WarmImageSpec) (outcome : Outcome (Reported WarmStatus))
      → ReadyWarms images [] true outcome
      → IsWarmed images outcome
  loop-IsWarmed images (failed failure) never = never
  loop-IsWarmed images (done (status, error)) warms =
      λ ready. let warmed = (warms ready).1 in rw warmed.listed warmed.covered

  -- A round over the images of a node ends whatever the host does, and calls the node warm only if
  -- every image of its spec has a status, in order, each required one ready and with a digest.
  pub reconcile_warm_images-ready :
      (node : StaticNode) (spec : StaticNodeSpec) (warm : WarmSpec) (s : S)
      → node.spec ≡ some spec
      → spec.warm ≡ some warm
      → IsWarmed warm.images (reconcile_warm_images host configured (some node) s).1
  unfolding reconcile_warm_images warm_round
  reconcile_warm_images-ready node spec warm s e e' =
      let warmed =
        loop-IsWarmed warm.images (warm_loop host configured warm.images [] true s).1
          (loop-ReadyWarms warm.images [] true s) in
      let here : follow (follow (some node) (λ n. n.spec)) (λ s. s.warm) ≡ some warm =
        ap (λ o. follow o (λ s. s.warm)) e ∙ e' in
      subst⁻¹ (λ o. IsWarmed warm.images (warm_round host configured o s).1) here warmed
