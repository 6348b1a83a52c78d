-- ===== src/StaticNode/Login.antt =====
-- docker_runtime.go: the login of a node to its image registry. Base64 and the reading of Docker's
-- configuration file, a JSON text, are given.
pub mod Authorized
use Prim.Native.String.{◌++◌ as concat}
use neutree.Prelude.{
  String, Bool, true, false, not, ◌&&◌, Option, none, some, List, ◌≡◌, refl, ◌⊎◌, inl, inr, ◌==◌,
  is_blank, if◌then◌else◌, arith, Bool-cases, eq_iff,
}
use neutree.Prelude.Dict.{lookup}
use neutree.Prelude.Result.{Result, ok, err}
use neutree.Strings.{replace_all}
use neutree.StaticNode.RunCommand.{shell_arg}
use neutree.StaticNode.Host.{
  Host, Failure, Outcome, done, failed, Action, docker_error, command, return, continue, wrap_error,
  ◌>>=◌, ◌>>◌,
}

pub record RegistryAuth : Type 0 where
  pub server : String
  pub username : String
  pub password : String

-- `configured`, for credentials that are there.
abbrev pub configured : RegistryAuth → Bool
configured auth =
    not (is_blank auth.server) && not (is_blank auth.username) && not (is_blank auth.password)

-- `base64.StdEncoding.EncodeToString`, and the `auth` of every server in a text that
-- `json.Unmarshal` reads as a `dockerConfigFile`.
pub record Encoding : Type 0 where
  pub base64 : String → String
  pub auths : String → Option (List (String × String))

unfoldable pub expected_registry_auth : Encoding → RegistryAuth → String
expected_registry_auth encoding auth =
    encoding.base64 (concat auth.username (concat ":" auth.password))

unfoldable pub redact_secret : String → String → String
unfolding replace_all
redact_secret error secret =
    if is_blank secret then error else replace_all error secret "[REDACTED]"

unfoldable pub login_command : RegistryAuth → String
unfolding shell_arg
login_command auth = concat "docker --config " (
    concat (shell_arg "/etc/neutree/docker") (
      concat " login " (
        concat (shell_arg auth.server) (
          concat " -u "
            (concat (shell_arg auth.username) (concat " -p " (shell_arg auth.password)))))))

unfoldable pub config_command : String
unfolding shell_arg
config_command = concat "cat " (shell_arg "/etc/neutree/docker/config.json")

unfoldable pub directory_command : String
unfolding shell_arg
directory_command = concat "mkdir -p " (shell_arg "/etc/neutree/docker")

-- The text of the configuration file names the credentials.
unfoldable pub config_matches : Encoding → RegistryAuth → String → Bool
unfolding expected_registry_auth lookup
config_matches encoding auth output = elim (encoding.auths output) [
  | none ↦ false
  | some auths ↦ elim (lookup auth.server auths) [
    | none ↦ false
    | some found ↦ found == expected_registry_auth encoding auth
  ]
]

module _ {S : Type 0} (host : Host S) (encoding : Encoding) where
  unfoldable pub login : RegistryAuth → Action S (Unit {0})
  unfolding login_command redact_secret docker_error
  login auth =
      command host (login_command auth) (λ error.
        docker_error "RegistryLoginFailed" (concat "failed to login docker registry " auth.server)
          (redact_secret error auth.password))
      >> return tt

  -- `registryConfigMatches`, from what reading the file came to, and what follows.
  unfoldable pub after_config : RegistryAuth → S × Result String → S × Outcome (Unit {0})
  unfolding config_matches login
  after_config auth (s, err error) = login auth s
  after_config auth (s, ok output) =
      if config_matches encoding auth output then return tt s else login auth s

  unfoldable pub ensure_registry_auth : RegistryAuth → Action S (Unit {0})
  unfolding after_config config_command
  ensure_registry_auth auth s =
      if configured auth then after_config auth (host.run s config_command) else return tt s

  unfoldable pub ensure_docker_config_dir : Action S (Unit {0})
  unfolding directory_command docker_error
  ensure_docker_config_dir =
      command host directory_command
        (docker_error "DockerConfigFailed" "failed to create docker config dir /etc/neutree/docker")
      >> return tt

  -- `NewDockerRuntime` with credentials.
  unfoldable pub new_docker_runtime_with : RegistryAuth → Action S (Unit {0})
  unfolding ensure_docker_config_dir ensure_registry_auth
  new_docker_runtime_with auth = ensure_docker_config_dir >> ensure_registry_auth auth
