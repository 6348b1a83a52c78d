-- ===== src/StaticNode/Cleanup/Calls.antt =====
-- What the removal of a node asks of its host.
use Prim.Native.String.{◌++◌ as concat}
use neutree.Prelude.{
  String, Bool, true, false, ◌&&◌, Option, none, some, List, [], ◌∷◌, ◌++◌, ◌≡◌, refl, sym, ap, ◌∙◌,
  map, is_blank, is_empty, is_nil, Bool-cases, inl, inr, if◌then◌else◌,
}
use neutree.Prelude.Result.{Result, ok, err}
use neutree.Api.Component.{NodeComponentSpec, NodeComponentConfigFile}
use neutree.Api.StaticNode.{StaticNode, StaticNodeSpec}
use neutree.StaticNode.Host.{Host}
use neutree.StaticNode.Removal.{static_node_delete_components}
use neutree.StaticNode.RunCommand.{component_container_name}
use neutree.StaticNode.Cleanup.{
  noted, remove_container_command, remove_files, aggregated, remove_component_config_files,
  delete_component, delete_components, delete_labeled, delete_directory, finished, delete_with,
  delete_for, delete, remove_cluster_labeled_component_containers_command,
}

pub data Call : Type 0 where
  run_command : String → Call
  remove_config : NodeComponentConfigFile → Call

abbrev component_calls : StaticNode → NodeComponentSpec → List Call
component_calls node component =
    run_command (remove_container_command (component_container_name (some node) component))
    ∷ map remove_config component.config_files

abbrev all_component_calls : StaticNode → List NodeComponentSpec → List Call
all_component_calls node [] = []
all_component_calls node (component ∷ components) =
    component_calls node component ++ all_component_calls node components

abbrev labeled_calls : StaticNode → List Call
labeled_calls node =
    let command = remove_cluster_labeled_component_containers_command (some node) in
    if is_blank command then [] else run_command command ∷ []

-- For each component its container and then its files, then the containers with the cluster's
-- label where the node has a cluster, and last the directory.
abbrev pub delete_calls : StaticNode → List Call
delete_calls node =
    all_component_calls node (static_node_delete_components (some node))
    ++ (labeled_calls node ++ run_command "sudo rm -rf /etc/neutree" ∷ [])

-- The state after a call, and whether it and all before it succeeded.
abbrev pub checked : {S A : Type 0} → Bool → S × Result A → S × Bool
checked good (s, ok a) = (s, good)
checked good (s, err error) = (s, false)

abbrev pub call : {S : Type 0} → Host S → Call → S × Bool → S × Bool
call host (run_command command) (s, good) = checked good (host.run s command)
call host (remove_config file) (s, good) = checked good (host.remove_file s file)

abbrev pub perform : {S : Type 0} → Host S → List Call → S × Bool → S × Bool
perform host [] done = done
perform host (c ∷ cs) done = perform host cs (call host c done)

abbrev summary : {S : Type 0} → S × List String → S × Bool
summary (s, errs) = (s, is_empty errs)

-- The state, and whether there is no error.
abbrev pub verdict : {S : Type 0} → S × Option String → S × Bool
verdict (s, error) = (s, is_nil error)

summary-noted :
    {S A : Type 0} (errs : List String) (message : String) (o : S × Result A)
    → summary (noted errs message o) ≡ checked (is_empty errs) o
summary-noted errs message (s, ok a) = refl
summary-noted [] message (s, err error) = refl
summary-noted (e ∷ errs) message (s, err error) = refl

module _ {S : Type 0} (host : Host S) (aggregate : List String → String) where
  perform-append :
      (cs ds : List Call) (done : S × Bool)
      → perform host (cs ++ ds) done ≡ perform host ds (perform host cs done)
  perform-append [] ds done = refl
  perform-append (c ∷ cs) ds done = perform-append cs ds (call host c done)

  -- What was before the calls only adds to the verdict.
  abbrev and_before : Bool → S × Bool → S × Bool
  and_before good (s, later) = (s, good && later)

  checked-before :
      {A : Type 0} (good more : Bool) (o : S × Result A)
      → checked (good && more) o ≡ and_before good (checked more o)
  checked-before good more (s, ok a) = refl
  checked-before true more (s, err error) = refl
  checked-before false more (s, err error) = refl

  perform-before :
      (files : List NodeComponentConfigFile) (good : Bool) (done : S × Bool)
      → perform host (map remove_config files) (and_before good done)
        ≡ and_before good (perform host (map remove_config files) done)
  perform-before [] good done = refl
  perform-before (file ∷ files) good (s, more) =
      ap (perform host (map remove_config files))
        (checked-before good more (host.remove_file s file))
      ∙ perform-before files good (checked more (host.remove_file s file))

  summary-remove_files :
      (files : List NodeComponentConfigFile) (done : S × List String)
      → summary (remove_files host aggregate files done)
        ≡ perform host (map remove_config files) (summary done)
  unfolding remove_files
  summary-remove_files [] (s, errs) = refl
  summary-remove_files (file ∷ files) (s, errs) =
      let message = concat "failed to remove config file " file.path in
      let o = host.remove_file s file in
      summary-remove_files files (noted errs message o)
      ∙ ap (perform host (map remove_config files)) (summary-noted errs message o)

  summary-aggregated :
      (errs : List String) (done : S × List String)
      → summary (aggregated host aggregate errs done) ≡ and_before (is_empty errs) (summary done)
  summary-aggregated [] (s, []) = refl
  summary-aggregated [] (s, e ∷ more) = refl
  summary-aggregated (x ∷ errs) (s, []) = refl
  summary-aggregated (x ∷ errs) (s, e ∷ more) = refl

  and_before-true : (good : Bool) (s : S) → and_before good (s, true) ≡ (s, good)
  and_before-true true s = refl
  and_before-true false s = refl

  summary-remove_component :
      (component : NodeComponentSpec) (done : S × List String)
      → summary (remove_component_config_files host aggregate component done)
        ≡ perform host (map remove_config component.config_files) (summary done)
  unfolding remove_component_config_files
  summary-remove_component component (s, errs) =
      let files = component.config_files in
      summary-aggregated errs (remove_files host aggregate files (s, []))
      ∙ ap (and_before (is_empty errs)) (summary-remove_files files (s, []))
      ∙ sym (perform-before files (is_empty errs) (s, true))
      ∙ ap (perform host (map remove_config files)) (and_before-true (is_empty errs) s)

  summary-delete_component :
      (node : StaticNode) (component : NodeComponentSpec) (done : S × List String)
      → summary (delete_component host aggregate node component done)
        ≡ perform host (component_calls node component) (summary done)
  unfolding delete_component
  summary-delete_component node component (s, errs) =
      let container_name = component_container_name (some node) component in
      let message = concat "failed to remove component container " container_name in
      let o = host.run s (remove_container_command container_name) in
      summary-remove_component component (noted errs message o)
      ∙ ap (perform host (map remove_config component.config_files)) (summary-noted errs message o)

  summary-delete_components :
      (node : StaticNode) (components : List NodeComponentSpec) (done : S × List String)
      → summary (delete_components host aggregate node components done)
        ≡ perform host (all_component_calls node components) (summary done)
  unfolding delete_components
  summary-delete_components node [] done = refl
  summary-delete_components node (component ∷ components) done =
      let later = all_component_calls node components in
      summary-delete_components node components
        (delete_component host aggregate node component done)
      ∙ ap (perform host later) (summary-delete_component node component done)
      ∙ sym (perform-append (component_calls node component) later (summary done))

  summary-delete_labeled :
      (node : StaticNode) (spec : StaticNodeSpec) (done : S × List String)
      → summary (delete_labeled host aggregate node spec done)
        ≡ perform host (labeled_calls node) (summary done)
  unfolding delete_labeled
  summary-delete_labeled node spec (s, errs) =
      let command = remove_cluster_labeled_component_containers_command (some node) in
      elim (Bool-cases (is_blank command)) [
        | inl e ↦ rw (e, delete_labeled) refl
        | inr e ↦ rw (e, delete_labeled) (summary-noted errs _ (host.run s command))
      ]

  summary-delete_directory :
      (done : S × List String)
      → summary (delete_directory host aggregate done)
        ≡ perform host (run_command "sudo rm -rf /etc/neutree" ∷ []) (summary done)
  unfolding delete_directory
  summary-delete_directory (s, errs) = summary-noted errs _ (host.run s "sudo rm -rf /etc/neutree")

  verdict-finished :
      (done : S × List String) → verdict (finished host aggregate done) ≡ summary done
  verdict-finished (s, []) = refl
  verdict-finished (s, e ∷ errs) = refl

  performs :
      (node : StaticNode) (spec : StaticNodeSpec) (s : S)
      → verdict (delete_with host aggregate node spec s)
        ≡ perform host (delete_calls node) (s, true)
  unfolding delete_with
  performs node spec s =
      let components = static_node_delete_components (some node) in
      let first = delete_components host aggregate node components (s, []) in
      let second = delete_labeled host aggregate node spec first in
      let last = run_command "sudo rm -rf /etc/neutree" ∷ [] in
      verdict-finished (delete_directory host aggregate second)
      ∙ summary-delete_directory second
      ∙ ap (perform host last) (
          summary-delete_labeled node spec first
          ∙ ap (perform host (labeled_calls node))
              (summary-delete_components node components (s, [])))
      ∙ sym (
          perform-append (all_component_calls node components) (labeled_calls node ++ last)
            (s, true)
          ∙ perform-append (labeled_calls node) last _)

  delete-eq-delete_with :
      (node : StaticNode) (spec : StaticNodeSpec) (s : S)
      → node.spec ≡ some spec
      → delete host aggregate node s ≡ delete_with host aggregate node spec s
  unfolding delete delete_for
  delete-eq-delete_with node spec s e = ap (λ o. delete_for host aggregate node o s) e

  pub delete-eq_nothing :
      (node : StaticNode) (s : S) → node.spec ≡ none → delete host aggregate node s ≡ (s, none)
  unfolding delete delete_for
  delete-eq_nothing node s e = ap (λ o. delete_for host aggregate node o s) e

-- The removal of a node with a spec makes every one of its calls to the host, in order, whatever of
-- them fails, and gives an error exactly when one of them failed.
pub delete-performs :
    {S : Type 0} (host : Host S) (aggregate : List String → String) (node : StaticNode)
    (spec : StaticNodeSpec) (s : S)
    → node.spec ≡ some spec
    → verdict (delete host aggregate node s) ≡ perform host (delete_calls node) (s, true)
delete-performs host aggregate node spec s e =
    ap verdict (delete-eq-delete_with host aggregate node spec s e)
    ∙ performs host aggregate node spec s
