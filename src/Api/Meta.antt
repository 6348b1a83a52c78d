-- ===== src/Api/Meta.antt =====
-- api/v1/basic_types.go, and the force-delete annotation of api/v1/cluster_types.go.
-- Every object of the model has its metadata: the controllers read it with no nil test.
use neutree.Prelude.{String, Bool, false, List, ◌==◌, none, some}
use neutree.Prelude.Dict.{lookup, insert}

pub record Metadata : Type 0 where
  pub workspace : String
  pub deletion_timestamp : String
  pub creation_timestamp : String
  pub update_timestamp : String
  pub labels : List (String × String)
  pub annotations : List (String × String)
  pub name : String

pub record Auth : Type 0 where
  pub ssh_user : String
  pub ssh_private_key : String

abbrev pub force_delete_annotation_key : String
force_delete_annotation_key = "neutree.ai/force-delete"

abbrev pub force_delete_annotation_value : String
force_delete_annotation_value = "true"

unfoldable pub is_force_delete : List (String × String) → Bool
unfolding lookup
is_force_delete annotations = elim (lookup force_delete_annotation_key annotations) [
  | none ↦ false
  | some value ↦ value == force_delete_annotation_value
]

unfoldable pub with_force_delete_annotation : List (String × String) → List (String × String)
unfolding insert
with_force_delete_annotation annotations =
    insert force_delete_annotation_key force_delete_annotation_value annotations
