-- ===== src/StaticCluster/RayRuntime/Warm.antt =====
-- The images that a node is to have.
use neutree.Prelude.{
  String, Bool, true, not, ◌&&◌, Option, none, some, List, [], ◌∷◌, ◌≡◌, refl, contains, is_blank,
  map, arith, eq_iff,
}
use neutree.Api.Component.{NodeComponentSpec, WarmSpec, WarmImageSpec}
use neutree.StaticCluster.RayRuntime.{warm_images_from, build_node_warm_spec}

abbrev refs : List WarmImageSpec → List String
refs images = map (λ i. i.ref) images

-- The images of a warm spec, none where there is no spec.
abbrev pub warm_refs : Option WarmSpec → List String
warm_refs none = []
warm_refs (some warm) = refs warm.images

-- No text stands twice.
abbrev pub is_distinct : List String → Bool
is_distinct [] = true
is_distinct (x ∷ xs) = not (contains xs x) && is_distinct xs

contains-warm_images :
    (ref : String) (seen : List String) (components : List NodeComponentSpec)
    → contains (refs (warm_images_from seen components)) ref ≡ (
        not (is_blank ref)
        && not (contains seen ref)
        && contains (map (λ c. c.image) components) ref)
unfolding warm_images_from
contains-warm_images ref seen [] = ground arith
contains-warm_images ref seen (component ∷ components) =
    let skipped = contains-warm_images ref seen components in
    let added = contains-warm_images ref (component.image ∷ seen) components in
    ground (arith, skipped, added, eq_iff component.image ref)

is_distinct-warm_images :
    (seen : List String) (components : List NodeComponentSpec)
    → is_distinct (refs (warm_images_from seen components)) ≡ true
unfolding warm_images_from
is_distinct-warm_images seen [] = refl
is_distinct-warm_images seen (component ∷ components) =
    let skipped = is_distinct-warm_images seen components in
    let added = is_distinct-warm_images (component.image ∷ seen) components in
    let later = contains-warm_images component.image (component.image ∷ seen) components in
    ground (arith, skipped, added, later, eq_iff component.image component.image)

module _ (components : List NodeComponentSpec) where
  warm_refs-build :
      warm_refs (build_node_warm_spec components) ≡ refs (warm_images_from [] components)
  unfolding build_node_warm_spec
  warm_refs-build = ground arith

  -- A node is asked to pull exactly the images that its components name, and none of them twice.
  pub build_node_warm_spec-images :
      (ref : String)
      → (contains (warm_refs (build_node_warm_spec components)) ref
          ≡ (not (is_blank ref) && contains (map (λ c. c.image) components) ref))
        × (is_distinct (warm_refs (build_node_warm_spec components)) ≡ true)
  build_node_warm_spec-images ref =
      let images = contains-warm_images ref [] components in
      rw warm_refs-build (ground (arith, images), is_distinct-warm_images [] components)
