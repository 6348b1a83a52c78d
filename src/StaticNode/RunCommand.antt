-- ===== src/StaticNode/RunCommand.antt =====
-- docker_runtime.go: the texts of commands, with the shell's quoting, and the names of containers.
use Prim.Native.String.{String, ◌++◌ as concat, char_at}
use Prim.Native.Char.{Char, code}
use neutree.Prelude.{
  ℕ, ◌+◌, ◌-◌, Bool, true, false, ◌&&◌, ◌||◌, Option, none, some, List, [], ◌∷◌, ◌++◌, ◌==◌, map,
  any, follow, is_blank, leb, nat_eq, sort_texts, if◌then◌else◌,
}
use neutree.Prelude.Int.{ℤ, pos, negsuc, is_zero}
use neutree.Prelude.Dict.{lookup}
use neutree.Strings.{
  join, replace_char, split_char, trim_space, fields, decimal, trim_right_char, trim_left_char,
}
use neutree.Api.Component.{NodeComponentSpec, NodeComponentPort, NodeComponentVolume}
use neutree.Api.StaticNode.{StaticNode}

unfoldable pub shell_arg : String → String
unfolding replace_char
shell_arg value = concat "'" (concat (replace_char value b'\'' "'\"'\"'") "'")

unfoldable pub shell_args : List String → List String
unfolding shell_arg
shell_args values = map shell_arg values

-- The last line that is not blank, trimmed.
last_filled : List String → String
unfolding trim_space
last_filled [] = ""
last_filled (line ∷ lines) =
    let later = last_filled lines in if is_blank later then trim_space line else later

unfoldable pub last_non_empty_line : String → String
unfolding last_filled split_char
last_non_empty_line output = last_filled (split_char output 10)

abbrev pub text_of_int : ℤ → String
text_of_int (pos n) = decimal n
text_of_int (negsuc n) = concat "-" (decimal (n + 1))

-- A letter or a digit in lower case, none where the name gets a dash. The characters outside ASCII
-- whose lower case is an ASCII letter are the Kelvin sign and the dotted capital I.
unfoldable pub name_code : ℕ → Option ℕ
name_code c =
    if leb b'A' c && leb c b'Z'
    then some (c + 32)
    else if (leb b'a' c && leb c b'z') || (leb b'0' c && leb c b'9')
    then some c
    else if nat_eq c 0x212a
    then some b'k'
    else if nat_eq c 0x130
    then some b'i'
    else none

unfoldable pub name_char : ℕ → Char
name_char c =
    char_at "0123456789abcdefghijklmnopqrstuvwxyz"
      (if leb c b'9' then c - b'0' else (c - b'a') + 10)

-- The loop of `sanitizeContainerName`, with `lastDash`.
sanitize_from : Bool → String → String
unfolding name_code name_char
sanitize_from last_dash String.[] = String.[]
sanitize_from last_dash (String.◌∷◌ c s) =
    let after_letter = sanitize_from false s in
    let after_dash = sanitize_from true s in
    elim (name_code (code c)) [
      | some letter ↦ String.◌∷◌ (name_char letter) after_letter
      | none ↦ if last_dash then after_dash else concat "-" after_dash
    ]

unfoldable pub sanitize_container_name : String → String
unfolding sanitize_from trim_left_char trim_right_char
sanitize_container_name value =
    trim_right_char (trim_left_char (sanitize_from false value) b'-') b'-'

-- `node.Spec.Cluster`, empty where the node or its spec is nil.
abbrev pub cluster_of : Option StaticNode → String
cluster_of node = elim (follow node (λ n. n.spec)) [ none ↦ "" | some spec ↦ spec.cluster ]

unfoldable pub component_container_name : Option StaticNode → NodeComponentSpec → String
unfolding sanitize_container_name
component_container_name node component =
    let prefix =
      if is_blank (cluster_of node) then "neutree" else concat "neutree-" (cluster_of node) in
    sanitize_container_name (concat prefix (concat "-" component.name))

-- `dockerRunOptionArgs`
unfoldable pub docker_run_option_args : List String → List String
unfolding shell_args fields
docker_run_option_args [] = []
docker_run_option_args (option ∷ options) =
    shell_args (fields option) ++ docker_run_option_args options

names_host_network : List String → Bool
names_host_network [] = false
names_host_network (first ∷ []) = first == "--net=host" || first == "--network=host"
names_host_network (first ∷ second ∷ rest) =
    first == "--net=host"
    || first == "--network=host"
    || ((first == "--net" || first == "--network") && second == "host")

unfoldable pub uses_host_network : List String → Bool
unfolding fields names_host_network
uses_host_network options = any (λ option. names_host_network (fields option)) options

port_args : List NodeComponentPort → List String
port_args [] = []
port_args (port ∷ ports) =
    let rest = port_args ports in
    let text = text_of_int port.port in
    if is_zero port.port then rest else "-p" ∷ concat text (concat ":" text) ∷ rest

value_of : List (String × String) → String → String
unfolding lookup
value_of env key = elim (lookup key env) [ none ↦ "" | some value ↦ value ]

env_args : List (String × String) → List String → List String
unfolding shell_arg value_of
env_args env [] = []
env_args env (key ∷ keys) =
    "-e" ∷ shell_arg (concat key (concat "=" (value_of env key))) ∷ env_args env keys

volume_args : List NodeComponentVolume → List String
unfolding shell_arg
volume_args [] = []
volume_args (volume ∷ volumes) =
    let rest = volume_args volumes in
    let value = concat volume.host_path (concat ":" volume.mount_path) in
    if is_blank volume.host_path || is_blank volume.mount_path
    then rest
    else "-v" ∷ shell_arg (if volume.read_only then concat value ":ro" else value) ∷ rest

unfoldable pub build_docker_run_command : Option StaticNode → NodeComponentSpec → String → String
unfolding component_container_name shell_arg shell_args docker_run_option_args uses_host_network
    port_args env_args volume_args sort_texts join
build_docker_run_command node component component_hash =
    let cluster_label : List String =
      if is_blank (cluster_of node)
      then []
      else "--label"
        ∷ shell_arg (concat "neutree.ai/static-node-cluster=" (cluster_of node))
        ∷ [] in
    let ports : List String =
      if uses_host_network component.docker_run_options then [] else port_args component.ports in
    let env = env_args component.env (sort_texts (map (λ e. e.0) component.env)) in
    join " " (
      "docker"
      ∷ "run"
      ∷ "-d"
      ∷ "--name"
      ∷ shell_arg (component_container_name node component)
      ∷ "--label"
      ∷ shell_arg (concat "neutree.ai/component-hash=" component_hash)
      ∷ "--label"
      ∷ shell_arg (concat "neutree.ai/component=" component.name)
      ∷ (cluster_label
          ++ ("--restart"
              ∷ "unless-stopped"
              ∷ (docker_run_option_args component.docker_run_options
                  ++ (ports
                      ++ (env
                          ++ (volume_args component.volumes
                              ++ (shell_arg component.image
                                  ∷ (shell_args component.command
                                      ++ shell_args component.args)))))))))
