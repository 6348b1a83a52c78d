-- ===== src/StaticNode/Docker.antt =====
-- docker_runtime.go: the commands for images and containers.
use Prim.Native.String.{String, ◌++◌ as concat}
use neutree.Prelude.{Bool, false, ◌&&◌, Option, List, [], ◌∷◌, ◌==◌, if◌then◌else◌}
use neutree.Strings.{fields}
use neutree.Api.Component.{NodeComponentSpec}
use neutree.Api.StaticNode.{StaticNode}
use neutree.StaticNode.Host.{
  Host, done, failed, Action, docker_error, command, return, attempt, ◌>>=◌,
}
use neutree.StaticNode.RunCommand.{
  shell_arg, last_non_empty_line, component_container_name, build_docker_run_command,
}

-- `len(fields) == 2 && fields[0] == componentHash && fields[1] == "true"`
abbrev pub match_fields : String → List String → Bool
match_fields component_hash [] = false
match_fields component_hash (found ∷ []) = false
match_fields component_hash (found ∷ running ∷ []) = found == component_hash && running == "true"
match_fields component_hash (found ∷ running ∷ more ∷ rest) = false

-- `registryAuth.configured()` is all that a pull asks of the credentials.
module _ {S : Type 0} (host : Host S) (configured : Bool) where
  unfoldable pub inspect_image_digest : String → Action S String
  unfolding shell_arg last_non_empty_line docker_error
  inspect_image_digest image_ref = do
    output ←
        command host
          (concat "docker image inspect --format='{{index .RepoDigests 0}}' " (shell_arg image_ref))
          (docker_error "ImageInspectFailed" (concat "failed to inspect image " image_ref))
    return (last_non_empty_line output)

  unfoldable pub pull_image : String → Action S String
  unfolding shell_arg docker_error
  pull_image image =
      command host
        (if configured
          then concat "docker --config "
              (concat (shell_arg "/etc/neutree/docker") (concat " pull " (shell_arg image)))
          else concat "docker pull " (shell_arg image))
        (docker_error "ImagePullFailed" (concat "failed to pull image " image))

  unfoldable pub inspect_local_image : String → Action S String
  unfolding shell_arg docker_error
  inspect_local_image image =
      command host (concat "docker image inspect " (concat (shell_arg image) " >/dev/null"))
        (docker_error "ImageInspectFailed" (concat "failed to inspect image " image))

  unfoldable pub ensure_image : String → Action S String
  unfolding inspect_local_image pull_image
  ensure_image image =
      attempt (inspect_local_image image)
        (λ found. elim found [ done output ↦ return output | failed failure ↦ pull_image image ])

  unfoldable pub component_container_matches : String → String → Action S Bool
  unfolding shell_arg last_non_empty_line fields docker_error
  component_container_matches container_name component_hash = do
    output ←
        command host
          (concat
            "docker inspect --format='{{index .Config.Labels \"neutree.ai/component-hash\"}} {{.State.Running}}' "
            (shell_arg container_name))
          (docker_error "ContainerInspectFailed"
            (concat "failed to inspect component container " container_name))
    return (match_fields component_hash (fields (last_non_empty_line output)))

  unfoldable pub remove_container : String → Action S String
  unfolding shell_arg docker_error
  remove_container container_name =
      command host
        (concat "docker rm -f " (concat (shell_arg container_name) " >/dev/null 2>&1 || true"))
        (docker_error "ContainerRemoveFailed"
          (concat "failed to remove component container " container_name))

  unfoldable pub restart_component_container :
      Option StaticNode → NodeComponentSpec → String → Action S String
  unfolding ensure_image remove_container build_docker_run_command component_container_name
      docker_error
  restart_component_container node component component_hash = do
    _ ← ensure_image component.image
    _ ← remove_container (component_container_name node component)
    command host (build_docker_run_command node component component_hash) (
        docker_error "ContainerRunFailed"
          (concat "failed to run component container " (component_container_name node component)))
