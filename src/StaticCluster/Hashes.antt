-- ===== src/StaticCluster/Hashes.antt =====
-- internal/cluster/staticcomponent: the fingerprint of a component. `digest` is the hexadecimal
-- SHA-256 of a component's JSON text, or the empty text where that cannot be made.
use neutree.Prelude.{String, true, List, map, ◌≡◌, refl, map-map_same, if◌then◌else◌}
use neutree.Api.Component.{NodeComponentSpec, NodeComponentConfigFile}

unfoldable pub blank_content : NodeComponentConfigFile → NodeComponentConfigFile
blank_content file = if file.skip_restart_on_change then record file { content = "" } else file

-- The part of a component that its fingerprint is taken of.
unfoldable pub hashed_part : NodeComponentSpec → NodeComponentSpec
unfolding blank_content
hashed_part component = record component {
  config_hash = "";
  config_files = map blank_content component.config_files;
  allocated = record component.allocated { config_files = true };
}

module _ (digest : NodeComponentSpec → String) where
  unfoldable pub hash : NodeComponentSpec → String
  unfolding hashed_part
  hash component = digest (hashed_part component)

  unfoldable pub with_hash : NodeComponentSpec → NodeComponentSpec
  unfolding hash
  with_hash component = record component { config_hash = hash component }

  unfoldable pub with_hashes : List NodeComponentSpec → List NodeComponentSpec
  unfolding with_hash
  with_hashes components = map with_hash components

  with_hash_idem :
      (component : NodeComponentSpec) → with_hash (with_hash component) ≡ with_hash component
  unfolding with_hash
  with_hash_idem component = refl

  -- Fingerprints do not depend on the fingerprints already there, so taking them again changes
  -- nothing.
  pub with_hashes_idem :
      (components : List NodeComponentSpec)
      → with_hashes (with_hashes components) ≡ with_hashes components
  unfolding with_hashes
  with_hashes_idem components = map-map_same with_hash with_hash with_hash components with_hash_idem
