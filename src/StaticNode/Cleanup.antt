-- ===== src/StaticNode/Cleanup.antt =====
-- reconciler.go and component_files.go: the removal of a node from its host.
pub mod Calls
use Prim.Native.String.{◌++◌ as concat}
use neutree.Prelude.{
  String, Bool, true, false, not, ◌&&◌, Option, none, some, List, [], ◌∷◌, ◌++◌, ◌≡◌, refl, sym, ap,
  ◌∙◌, is_blank, is_empty, is_nil, arith, if◌then◌else◌,
}
use neutree.Prelude.Result.{Result, ok, err}
use neutree.Api.Component.{NodeComponentSpec, NodeComponentConfigFile}
use neutree.Api.StaticNode.{StaticNode, StaticNodeSpec}
use neutree.StaticNode.Host.{Host}
use neutree.StaticNode.Removal.{static_node_delete_components}
use neutree.StaticNode.RunCommand.{shell_arg, component_container_name}

unfoldable pub remove_cluster_labeled_component_containers_command : Option StaticNode → String
unfolding shell_arg
remove_cluster_labeled_component_containers_command none = ""
remove_cluster_labeled_component_containers_command (some node) = elim node.spec [
  | none ↦ ""
  | some spec ↦
      if is_blank spec.cluster
      then ""
      else concat "containers=$(docker ps -aq --filter label=" (
          concat (shell_arg (concat "neutree.ai/static-node-cluster=" spec.cluster))
            "); if [ -n \"$containers\" ]; then docker rm -f $containers >/dev/null 2>&1; fi")
]

-- `errs = append(errs, errors.Wrapf(err, ...))`, where there is an error.
abbrev pub noted : {S A : Type 0} → List String → String → S × Result A → S × List String
noted errs message (s, ok a) = (s, errs)
noted errs message (s, err error) = (s, errs ++ concat message (concat ": " error) ∷ [])

-- `apierrors.NewAggregate`, of Kubernetes: no error for no errors, and one text for some.
abbrev pub new_aggregate : (List String → String) → List String → Option String
new_aggregate aggregate errs = if is_empty errs then none else some (aggregate errs)

abbrev pub with_error : List String → Option String → List String
with_error errs none = errs
with_error errs (some error) = errs ++ error ∷ []

abbrev pub remove_container_command : String → String
remove_container_command container_name =
    concat "docker rm -f " (concat (shell_arg container_name) " >/dev/null 2>&1 || true")

module _ {S : Type 0} (host : Host S) (aggregate : List String → String) where
  -- The loop of `removeComponentConfigFiles`.
  unfoldable pub remove_files : List NodeComponentConfigFile → S × List String → S × List String
  remove_files [] (s, errs) = (s, errs)
  remove_files (file ∷ files) (s, errs) =
      remove_files files
        (noted errs (concat "failed to remove config file " file.path) (host.remove_file s file))

  abbrev pub aggregated : List String → S × List String → S × List String
  aggregated errs (s, file_errs) = (s, with_error errs (new_aggregate aggregate file_errs))

  -- `removeComponentConfigFiles`, its error appended.
  unfoldable pub remove_component_config_files :
      NodeComponentSpec → S × List String → S × List String
  unfolding remove_files
  remove_component_config_files component (s, errs) =
      aggregated errs (remove_files component.config_files (s, []))

  unfoldable pub delete_component :
      StaticNode → NodeComponentSpec → S × List String → S × List String
  unfolding component_container_name remove_component_config_files
  delete_component node component (s, errs) =
      let container_name = component_container_name (some node) component in
      remove_component_config_files component (
        noted errs (concat "failed to remove component container " container_name)
          (host.run s (remove_container_command container_name)))

  unfoldable pub delete_components :
      StaticNode → List NodeComponentSpec → S × List String → S × List String
  unfolding delete_component
  delete_components node [] done = done
  delete_components node (component ∷ components) done =
      delete_components node components (delete_component node component done)

  unfoldable pub delete_labeled : StaticNode → StaticNodeSpec → S × List String → S × List String
  unfolding remove_cluster_labeled_component_containers_command
  delete_labeled node spec (s, errs) =
      let command = remove_cluster_labeled_component_containers_command (some node) in
      if is_blank command
      then (s, errs)
      else noted errs (concat "failed to remove static node cluster containers " spec.cluster)
          (host.run s command)

  unfoldable pub delete_directory : S × List String → S × List String
  delete_directory (s, errs) =
      noted errs "failed to remove static node Neutree data directory"
        (host.run s "sudo rm -rf /etc/neutree")

  abbrev pub finished : S × List String → S × Option String
  finished (s, errs) = (s, new_aggregate aggregate errs)

  unfoldable pub delete_with : StaticNode → StaticNodeSpec → S → S × Option String
  unfolding static_node_delete_components delete_components delete_labeled delete_directory
  delete_with node spec s = finished (
      delete_directory (
        delete_labeled node spec
          (delete_components node (static_node_delete_components (some node)) (s, []))))

  unfoldable pub delete_for : StaticNode → Option StaticNodeSpec → S → S × Option String
  unfolding delete_with
  delete_for node none s = (s, none)
  delete_for node (some spec) s = delete_with node spec s

  -- `Reconciler.Delete`, for a runner that is there.
  unfoldable pub delete : StaticNode → S → S × Option String
  unfolding delete_for
  delete node s = delete_for node node.spec s
