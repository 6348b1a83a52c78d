-- ===== src/StaticNode/Login/Authorized.antt =====
-- What the start of a node's Docker runtime comes to, when the node has credentials.
use Prim.Native.String.{◌++◌ as concat}
use neutree.Prelude.{String, Bool, true, false, ◌≡◌, refl, ◌⊎◌, inl, inr, if◌then◌else◌}
use neutree.Prelude.Result.{Result, ok, err}
use neutree.StaticNode.Host.{
  Host, Outcome, done, failed, continue, return, docker_error, wrap_error,
}
use neutree.StaticNode.Login.{
  RegistryAuth, Encoding, configured, config_command, directory_command, login_command,
  config_matches, redact_secret, login, after_config, ensure_registry_auth,
  ensure_docker_config_dir, new_docker_runtime_with,
}

module _ {S : Type 0} (host : Host S) (encoding : Encoding) (auth : RegistryAuth) where
  -- The last command read Docker's configuration file, which names the credentials.
  pub record Found (s' : S) : Type 0 where
    before : S
    output : String
    read : host.run before config_command ≡ (s', ok output)
    matches : config_matches encoding auth output ≡ true

  -- The last command succeeded, or failed.
  pub record Accepted (text : String) (s' : S) : Type 0 where
    before : S
    output : String
    accepted : host.run before text ≡ (s', ok output)

  pub record Refused (text : String) (s' : S) : Type 0 where
    before : S
    error : String
    refused : host.run before text ≡ (s', err error)

  abbrev pub IsAuthorized : S × Outcome (Unit {0}) → Type 0
  IsAuthorized (s', done u) = Found s' ⊎ Accepted (login_command auth) s'
  IsAuthorized (s', failed failure) =
      (Refused directory_command s' × (failure.reason ≡ "DockerConfigFailed"))
      ⊎ (Refused (login_command auth) s' × (failure.reason ≡ "RegistryLoginFailed"))

  logged_in :
      (before : S) (o : S × Result String)
      → host.run before (login_command auth) ≡ o
      → IsAuthorized (
          continue
            (wrap_error
              (λ error.
                docker_error "RegistryLoginFailed"
                  (concat "failed to login docker registry " auth.server)
                  (redact_secret error auth.password))
              o)
            (λ _. return tt))
  unfolding docker_error
  logged_in before (s, ok output) e =
      inr (record { before = before; output = output; accepted = e })
  logged_in before (s, err error) e =
      inr (record { before = before; error = error; refused = e }, refl)

  login-IsAuthorized : (s : S) → IsAuthorized (login host encoding auth s)
  unfolding login
  login-IsAuthorized s = logged_in s (host.run s (login_command auth)) refl

  found_or_logged_in :
      (before s : S) (output : String)
      → host.run before config_command ≡ (s, ok output)
      → (found : Bool) → config_matches encoding auth output ≡ found
      → IsAuthorized (if found then return tt s else login host encoding auth s)
  found_or_logged_in before s output e true matches =
      inl (record { before = before; output = output; read = e; matches = matches })
  found_or_logged_in before s output e false matches = login-IsAuthorized s

  after_config-IsAuthorized :
      (before : S) (o : S × Result String)
      → host.run before config_command ≡ o
      → IsAuthorized (after_config host encoding auth o)
  unfolding after_config
  after_config-IsAuthorized before (s, ok output) e =
      found_or_logged_in before s output e (config_matches encoding auth output) refl
  after_config-IsAuthorized before (s, err error) e = login-IsAuthorized s

  directory-IsAuthorized :
      (before : S) (o : S × Result String)
      → host.run before directory_command ≡ o
      → configured auth ≡ true
      → IsAuthorized (
          continue
            (continue
              (wrap_error
                (docker_error "DockerConfigFailed"
                  "failed to create docker config dir /etc/neutree/docker")
                o)
              (λ _. return tt))
            (λ _. ensure_registry_auth host encoding auth))
  unfolding docker_error ensure_registry_auth
  directory-IsAuthorized before (s, ok output) e is_configured =
      rw (is_configured, ensure_registry_auth)
        (after_config-IsAuthorized s (host.run s config_command) refl)
  directory-IsAuthorized before (s, err error) e is_configured =
      inl (record { before = before; error = error; refused = e }, refl)

  -- With credentials, the start of a Docker runtime ends well only if the last command read a
  -- configuration file that names them, or was a login that succeeded; it ends with an error only
  -- if the last command failed, which was the making of the directory or the login, and the
  -- reason of the error says which.
  pub new_docker_runtime_with-IsAuthorized :
      (s : S) → configured auth ≡ true → IsAuthorized (new_docker_runtime_with host encoding auth s)
  unfolding new_docker_runtime_with ensure_docker_config_dir
  new_docker_runtime_with-IsAuthorized s =
      directory-IsAuthorized s (host.run s directory_command) refl
