-- ===== src/StaticNode/Removal.antt =====
-- reconciler.go: the components that are removed with a node.
use neutree.Prelude.{
  String, false, ◌||◌, Option, none, some, List, [], ◌∷◌, ◌++◌, ◌==◌, ◌≡◌, refl, Bool-cases, inl,
  inr, is_blank, contains, map, arith, eq_iff, if◌then◌else◌,
}
use neutree.Api.Component.{all_nil, NodeComponentSpec, NodeComponentStatus}
use neutree.Api.StaticNode.{StaticNode}

-- `v1.NodeComponentSpec{Name: name}`
abbrev pub named_component : String → NodeComponentSpec
named_component name = record {
  name = name;
  image = "";
  command = [];
  args = [];
  env = [];
  ports = [];
  volumes = [];
  docker_run_options = [];
  config_files = [];
  health_check = none;
  config_hash = "";
  allocated = all_nil;
}

-- The components collected, and the names seen.
abbrev Collected : Type 0
Collected = List NodeComponentSpec × List String

unfoldable pub append_static_node_delete_component : Collected → NodeComponentSpec → Collected
append_static_node_delete_component (components, seen) component =
    if is_blank component.name
    then (components ++ component ∷ [], seen)
    else if contains seen component.name
    then (components, seen)
    else (components ++ component ∷ [], component.name ∷ seen)

unfoldable pub collect_specs : Collected → List NodeComponentSpec → Collected
unfolding append_static_node_delete_component
collect_specs collected [] = collected
collect_specs collected (component ∷ components) =
    collect_specs (append_static_node_delete_component collected component) components

unfoldable pub collect_statuses : Collected → List NodeComponentStatus → Collected
unfolding append_static_node_delete_component
collect_statuses collected [] = collected
collect_statuses collected (status ∷ statuses) =
    collect_statuses
      (if is_blank status.name
        then collected
        else append_static_node_delete_component collected (named_component status.name))
      statuses

abbrev pub spec_components_of : StaticNode → List NodeComponentSpec
spec_components_of node = elim node.spec [ none ↦ [] | some spec ↦ spec.components ]

abbrev pub status_components_of : StaticNode → List NodeComponentStatus
status_components_of node = elim node.status [ none ↦ [] | some status ↦ status.components ]

unfoldable pub static_node_delete_components : Option StaticNode → List NodeComponentSpec
unfolding collect_specs collect_statuses
static_node_delete_components none = []
static_node_delete_components (some node) =
    (collect_statuses (collect_specs ([], []) (spec_components_of node))
      (status_components_of node)).0

abbrev names : List NodeComponentSpec → List String
names components = map (λ c. c.name) components

contains-append :
    (n : String) (components : List NodeComponentSpec) (component : NodeComponentSpec)
    → contains (names (components ++ component ∷ [])) n
      ≡ (contains (names components) n || component.name == n)
contains-append n [] component = ground arith
contains-append n (first ∷ components) component =
    ground (arith, contains-append n components component)

-- The names seen are the names collected.
abbrev Agrees : Collected → Type 0
Agrees collected =
    (n : String) → is_blank n ≡ false → contains collected.1 n ≡ contains (names collected.0) n

Agrees-append :
    (collected : Collected) (component : NodeComponentSpec)
    → Agrees collected
    → Agrees (append_static_node_delete_component collected component)
unfolding append_static_node_delete_component
Agrees-append (components, seen) component agrees n named =
    let old = agrees n named in
    ground (arith, named, old, contains-append n components component, eq_iff component.name n)

has-append :
    (collected : Collected) (component : NodeComponentSpec) (n : String)
    → Agrees collected
    → is_blank n ≡ false
    → contains (names (append_static_node_delete_component collected component).0) n
      ≡ (contains (names collected.0) n || component.name == n)
unfolding append_static_node_delete_component
has-append (components, seen) component n agrees named =
    let old = agrees n named in
    ground (arith, named, old, contains-append n components component, eq_iff component.name n)

has-specs :
    (collected : Collected) (components : List NodeComponentSpec) (n : String)
    → Agrees collected
    → is_blank n ≡ false
    → contains (names (collect_specs collected components).0) n
      ≡ (contains (names collected.0) n || contains (names components) n)
unfolding collect_specs
has-specs collected [] n agrees named = ground arith
has-specs collected (component ∷ components) n agrees named =
    let next = append_static_node_delete_component collected component in
    let later = has-specs next components n (Agrees-append collected component agrees) named in
    let here = has-append collected component n agrees named in ground (arith, later, here)

Agrees-specs :
    (collected : Collected) (components : List NodeComponentSpec)
    → Agrees collected
    → Agrees (collect_specs collected components)
unfolding collect_specs
Agrees-specs collected [] agrees = agrees
Agrees-specs collected (component ∷ components) agrees =
    Agrees-specs (append_static_node_delete_component collected component) components
      (Agrees-append collected component agrees)

-- One round of the second loop.
abbrev next_status : Collected → NodeComponentStatus → Collected
next_status collected status =
    if is_blank status.name
    then collected
    else append_static_node_delete_component collected (named_component status.name)

Agrees-status :
    (collected : Collected) (status : NodeComponentStatus)
    → Agrees collected
    → Agrees (next_status collected status)
Agrees-status collected status agrees n named =
    let here = Agrees-append collected (named_component status.name) agrees n named in
    let old = agrees n named in
    elim (Bool-cases (is_blank status.name)) [
      | inl blank ↦ rw blank old
      | inr filled ↦ rw filled here
    ]

has-statuses :
    (collected : Collected) (statuses : List NodeComponentStatus) (n : String)
    → Agrees collected
    → is_blank n ≡ false
    → contains (names (collect_statuses collected statuses).0) n
      ≡ (contains (names collected.0) n || contains (map (λ s. s.name) statuses) n)
unfolding collect_statuses
has-statuses collected [] n agrees named = ground arith
has-statuses collected (status ∷ statuses) n agrees named =
    let next = next_status collected status in
    let later = has-statuses next statuses n (Agrees-status collected status agrees) named in
    let here = has-append collected (named_component status.name) n agrees named in
    ground (arith, named, later, here, eq_iff status.name n)

-- A node is removed with every component that its spec asks for or its status still reports, and
-- with no other.
pub delete_components-names :
    (node : StaticNode) (n : String)
    → is_blank n ≡ false
    → contains (names (static_node_delete_components (some node))) n ≡ (
        contains (names (spec_components_of node)) n
        || contains (map (λ s. s.name) (status_components_of node)) n)
unfolding static_node_delete_components
delete_components-names node n named =
    let start : Agrees ([], []) = λ m e. refl in
    let specs = has-specs ([], []) (spec_components_of node) n start named in
    let statuses =
      has-statuses (collect_specs ([], []) (spec_components_of node)) (status_components_of node) n
        (Agrees-specs ([], []) (spec_components_of node) start) named in
    ground (arith, specs, statuses)
