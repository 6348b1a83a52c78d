-- ===== src/Image/Rewrite.antt =====
-- internal/util/image.go: rewriting an image reference more than once.
use Prim.Native.String.append
use Prim.Native.String.{String, ◌++◌ as concat}
use text.Mathlib.TextLemmas.{append_assoc}
use neutree.Prelude.{◌≡◌, refl, ap, true, ◌||◌, ◌⊎◌, inl, inr, is_blank, Bool-cases, arith, eq_iff}
use neutree.Strings.{has_prefix}
use neutree.Image.{
  clean_image_prefix, is_docker_hub_image_prefix, strip_source_image_registry, rewrite_image_ref,
}

pub has_prefix-concat : (s t : String) → has_prefix (concat s t) s ≡ true
unfolding has_prefix
has_prefix-concat String.[] t = refl
has_prefix-concat (String.◌∷◌ c s) t =
    rw (append.cons c s t) (ground (arith, has_prefix-concat s t))

blank_case :
    (image_prefix image : String)
    → is_blank image ≡ true
    → rewrite_image_ref image_prefix image ≡ image
unfolding rewrite_image_ref
blank_case image_prefix image h = ground (arith, eq_iff image "")

-- A rewritten reference is the reference itself, or the prefix, a slash and the reference without
-- its source registry.
rewrite_cases :
    (image_prefix image : String)
    → (rewrite_image_ref image_prefix image ≡ image)
      ⊎ ((rewrite_image_ref image_prefix image
          ≡ concat
              (clean_image_prefix image_prefix)
              (concat "/" (strip_source_image_registry image))))
unfolding rewrite_image_ref
rewrite_cases image_prefix image =
    let prefix = clean_image_prefix image_prefix in
    elim (Bool-cases (is_blank image)) [
      | inl blank ↦ inl (blank_case image_prefix image blank)
      | inr full ↦
          elim (Bool-cases (
            is_blank prefix
            || is_docker_hub_image_prefix prefix
            || has_prefix image (concat prefix "/"))) [
              | inl same ↦ inl (rw (full, same, rewrite_image_ref))
              | inr new ↦ inr (rw (full, new, rewrite_image_ref))
            ]
    ]

rewrite_of_prefix :
    (image_prefix image : String)
    → has_prefix image (concat (clean_image_prefix image_prefix) "/") ≡ true
    → rewrite_image_ref image_prefix image ≡ image
unfolding rewrite_image_ref
rewrite_of_prefix image_prefix image h = ground (arith, eq_iff image "")

-- Rewriting a reference again changes nothing, so the image of a component does not depend on how
-- often its reference went through the rewriting.
pub rewrite_image_ref_idem :
    (image_prefix image : String)
    → rewrite_image_ref image_prefix (rewrite_image_ref image_prefix image)
      ≡ rewrite_image_ref image_prefix image
rewrite_image_ref_idem image_prefix image = elim (rewrite_cases image_prefix image) [
  | inl same ↦ ap (rewrite_image_ref image_prefix) same
  | inr new ↦
      let prefix = clean_image_prefix image_prefix in
      let rest = strip_source_image_registry image in
      rewrite_of_prefix image_prefix (rewrite_image_ref image_prefix image)
        (rw (new, ← append_assoc) (has_prefix-concat (concat prefix "/") rest))
]
