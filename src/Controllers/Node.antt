-- ===== src/Controllers/Node.antt =====
-- static_node_controller.go: the deletion of a node.
pub mod Deletion
use Prim.Native.String.{◌++◌ as concat}
use neutree.Prelude.{String, Bool, Option, none, some, List, if◌then◌else◌}
use neutree.Prelude.Result.{Result, ok, err}
use neutree.Api.Meta.{is_force_delete}
use neutree.Api.StaticNode.{StaticNode}
use neutree.StaticNode.Host.{Host}
use neutree.StaticNode.Status.{build_status}
use neutree.StaticNode.Cleanup.{delete}
use neutree.Store.{Store, Action}
use neutree.Controllers.Helpers.{hard_delete_static_node, update_static_node_status}
use neutree.Controllers.Cluster.{reported}

-- What stands around the controller: the connections to hosts, the clock, and the text in which
-- Kubernetes puts several errors together.
pub record Runners (S : Type 0) : Type 0 where
  pub new_static_node_runner : StaticNode → Action S (Host S)
  pub close : Host S → S → S
  pub clock : S → String
  pub aggregate : List String → String

-- What the deferred call of `updateStatus` leaves, for the error of the round.
module _ {S : Type 0} (store : Store S) (runners : Runners S) where
  unfoldable pub update_failed_status : StaticNode → String → Action S (Unit {0})
  unfolding build_status update_static_node_status
  update_failed_status node error s = reported "failed to update static node status" (some error) (
      update_static_node_status store node
        (build_status (runners.clock s) (some node) none (some error)) s)

  -- The runner is closed before the status is written, and after the row is removed.
  abbrev pub closed : {A : Type 0} → Host S → S × A → S × A
  closed host (s, a) = (runners.close host s, a)

  unfoldable pub after_cleanup : StaticNode → Host S → S × Option String → S × Result (Unit {0})
  unfolding hard_delete_static_node update_failed_status is_force_delete
  after_cleanup node host (s, none) = closed host (hard_delete_static_node store node s)
  after_cleanup node host (s, some error) =
      if is_force_delete node.metadata.annotations
      then closed host (hard_delete_static_node store node s)
      else update_failed_status node error (runners.close host s)

  unfoldable pub after_runner : StaticNode → S × Result (Host S) → S × Result (Unit {0})
  unfolding hard_delete_static_node update_failed_status is_force_delete delete after_cleanup
  after_runner node (s, ok host) = after_cleanup node host (delete host runners.aggregate node s)
  after_runner node (s, err error) =
      if is_force_delete node.metadata.annotations
      then hard_delete_static_node store node s
      else update_failed_status node (concat "failed to create static node runner: " error) s

  -- `reconcileDelete`
  unfoldable pub reconcile_delete : StaticNode → Action S (Unit {0})
  unfolding after_runner
  reconcile_delete node s = after_runner node (runners.new_static_node_runner node s)
