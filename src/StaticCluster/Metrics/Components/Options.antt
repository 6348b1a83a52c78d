-- ===== src/StaticCluster/Metrics/Components/Options.antt =====
-- The Docker options of the node agent, and the names of the components of a node.
use neutree.Prelude.{
  String, true, not, ◌&&◌, List, [], ◌∷◌, ◌++◌, ◌≡◌, refl, contains, is_blank, map, arith, eq_iff,
  Bool-cases, inl, inr,
}
use neutree.Strings.{trim_space}
use neutree.StaticCluster.Metrics.Components.{unique_options, append_docker_run_options_unique}
use neutree.StaticCluster.RayRuntime.Warm.{is_distinct}

unique-contains :
    (seen options : List String) (o : String)
    → contains (unique_options seen options) o
      ≡ (not (is_blank o) && not (contains seen o) && contains (map trim_space options) o)
unfolding unique_options
unique-contains seen [] o = ground arith
unique-contains seen (option ∷ options) o =
    let here = unique-contains seen options o in
    let later = unique-contains (trim_space option ∷ seen) options o in
    ground (arith, here, later, eq_iff (trim_space option) o)

unique-is_distinct : (seen options : List String) → is_distinct (unique_options seen options) ≡ true
unfolding unique_options
unique-is_distinct seen [] = refl
unique-is_distinct seen (option ∷ options) =
    let trimmed = trim_space option in
    let skipped = unique-is_distinct seen options in
    let added = unique-is_distinct (trimmed ∷ seen) options in
    elim (Bool-cases (is_blank trimmed)) [
      | inl e ↦ ground (arith, skipped, e)
      | inr e ↦
          let later = unique-contains (trimmed ∷ seen) options trimmed in
          ground (arith, skipped, added, later, e, eq_iff trimmed trimmed)
    ]

-- Docker gets each option once, in the form without the space around it, and it gets all that are
-- not blank and no other.
pub append_docker_run_options_unique-contains :
    (options values : List String) (o : String)
    → (contains (append_docker_run_options_unique options values) o
        ≡ (not (is_blank o) && contains (map trim_space (options ++ values)) o))
      × (is_distinct (append_docker_run_options_unique options values) ≡ true)
unfolding append_docker_run_options_unique
append_docker_run_options_unique-contains options values o = (
  ground (arith, unique-contains [] (options ++ values) o),
  unique-is_distinct [] (options ++ values),
)
