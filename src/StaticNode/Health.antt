-- ===== src/StaticNode/Health.antt =====
-- reconciler.go: the health check of a component.
use Prim.Native.String.{◌++◌ as concat}
use neutree.Prelude.{
  String, not, ◌||◌, Option, none, some, follow, is_blank, is_empty, leb, if◌then◌else◌,
}
use neutree.Prelude.Int.{ℤ, pos, is_zero, is_not_positive}
use neutree.Strings.{join, trim_space, has_prefix, contains_char}
use neutree.Api.Component.{NodeComponentSpec, NodeComponentHealthCheck}
use neutree.Api.StaticNode.{StaticNode}
use neutree.StaticNode.Host.{
  Host, Action, plain_error, command, return, fail, wrap_error, ◌>>=◌, ◌>>◌,
}
use neutree.StaticNode.RunCommand.{shell_args, text_of_int}

unfoldable pub static_node_health_host : Option StaticNode → String
static_node_health_host node = elim (follow node (λ n. n.spec)) [
  | none ↦ "127.0.0.1"
  | some spec ↦ if is_blank spec.ip then "127.0.0.1" else spec.ip
]

-- `net.JoinHostPort`: a host with a colon stands in brackets.
unfoldable pub join_host_port : String → String → String
unfolding contains_char
join_host_port host port =
    if contains_char host b':'
    then concat "[" (concat host (concat "]:" port))
    else concat host (concat ":" port)

unfoldable pub component_health_base_url : Option StaticNode → NodeComponentHealthCheck → String
unfolding trim_space static_node_health_host join_host_port
component_health_base_url node health_check =
    let given = trim_space health_check.http_host in
    let host = if is_blank given then static_node_health_host node else given in
    concat "http://" (join_host_port host (text_of_int health_check.port))

unfoldable pub component_health_url : Option StaticNode → NodeComponentHealthCheck → String
unfolding component_health_base_url has_prefix
component_health_url node health_check =
    let path = if is_blank health_check.http_path then "/" else health_check.http_path in
    concat (component_health_base_url node health_check)
      (if has_prefix path "/" then path else concat "/" path)

module _ {S : Type 0} (host : Host S) where
  -- `checkHTTPHealth`
  unfoldable pub check_http_health : String → ℤ → Action S (Unit {0})
  check_http_health url timeout_sec =
      (λ s. wrap_error plain_error (host.http_get s url timeout_sec)) >>= λ response.
      if not (leb 200 response.0) || leb 400 response.0
      then fail
          (plain_error (concat "http health check " (concat url (concat " returned " response.1))))
      else return tt

  check_health : Option StaticNode → Option NodeComponentHealthCheck → Action S (Unit {0})
  unfolding check_http_health component_health_url shell_args join
  check_health current none = return tt
  check_health current (some health_check) =
      if not (is_empty health_check.command)
      then command host (join " " (shell_args health_check.command)) plain_error >> return tt
      else if is_zero health_check.port
      then return tt
      else check_http_health (component_health_url current health_check)
          (if is_not_positive health_check.timeout_sec then pos 5 else health_check.timeout_sec)

  unfoldable pub check_component_health :
      Option StaticNode → NodeComponentSpec → Action S (Unit {0})
  unfolding check_health
  check_component_health node component = check_health node component.health_check
